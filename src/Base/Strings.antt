-- ===== src/Base/Strings.antt =====
-- Go strings as their bytes, with the comparisons of the language and of package strings.
use Prim.Native.Nat.{ℕ}
use Prim.Native.Char.{code}
use Prim.Native.String.{String}
use mathlib.Core.Path.{◌≡◌, refl}
use mathlib.Core.Logic.{◌↔◌}
use mathlib.Core.Bool.{Bool, true, false, ◌&&◌, ◌||◌}
use mathlib.Core.List.{List, [], ◌∷◌, ◌++◌, reverse}
use native.Mathlib.Omega.{arith}
use crawlledger.Base.Tests.{ltb, ◌==◌}

abbrev pub Bytes : Type 0
Bytes = List ℕ

-- The code points of a literal; every literal of the source that is used is ASCII.
abbrev pub bytes : String → Bytes
bytes String.[] = []
bytes (String.◌∷◌ first rest) = code first ∷ bytes rest

-- left == right
unfoldable pub bytes_eq : Bytes → Bytes → Bool
bytes_eq [] [] = true
bytes_eq (x ∷ xs) (y ∷ ys) = x == y && bytes_eq xs ys
bytes_eq _ _ = false

-- left < right: the order of bytes, lexicographic.
unfoldable pub bytes_lt : Bytes → Bytes → Bool
bytes_lt [] [] = false
bytes_lt [] (y ∷ ys) = true
bytes_lt (x ∷ xs) [] = false
bytes_lt (x ∷ xs) (y ∷ ys) = ltb x y || (x == y && bytes_lt xs ys)

-- strings.HasPrefix
unfoldable pub has_prefix : Bytes → Bytes → Bool
has_prefix s [] = true
has_prefix [] (p ∷ ps) = false
has_prefix (x ∷ xs) (p ∷ ps) = x == p && has_prefix xs ps

-- strings.HasSuffix
unfoldable pub has_suffix : Bytes → Bytes → Bool
unfolding has_prefix
has_suffix s p = has_prefix (reverse s) (reverse p)

-- strings.Contains
unfoldable pub contains : Bytes → Bytes → Bool
unfolding has_prefix
contains [] p = has_prefix [] p
contains (x ∷ xs) p = has_prefix (x ∷ xs) p || contains xs p

pub bytes_eq_iff : (a b : Bytes) → (bytes_eq a b ≡ true) ↔ (a ≡ b)
unfolding bytes_eq
bytes_eq_iff (x ∷ a) (y ∷ b) = ground (arith, bytes_eq_iff a b)
bytes_eq_iff _ _ = ground arith

pub bytes_eq_refl : (a : Bytes) → bytes_eq a a ≡ true
bytes_eq_refl a = (bytes_eq_iff a a).1 refl

pub bytes_lt_irrefl : (a : Bytes) → bytes_lt a a ≡ false
unfolding bytes_lt
bytes_lt_irrefl [] = refl
bytes_lt_irrefl (x ∷ a) = ground (arith, bytes_lt_irrefl a)

pub bytes_lt_trans :
    (a b c : Bytes) → bytes_lt a b ≡ true → bytes_lt b c ≡ true → bytes_lt a c ≡ true
unfolding bytes_lt
bytes_lt_trans [] [] c h k = cc
bytes_lt_trans [] (y ∷ b) [] h k = cc
bytes_lt_trans [] (y ∷ b) (z ∷ c) h k = refl
bytes_lt_trans (x ∷ a) [] c h k = cc
bytes_lt_trans (x ∷ a) (y ∷ b) [] h k = cc
bytes_lt_trans (x ∷ a) (y ∷ b) (z ∷ c) h k = ground (arith, bytes_lt_trans a b c)

-- Of two different strings one comes first.
pub bytes_lt_total : (a b : Bytes) → bytes_lt a b ≡ false → bytes_lt b a ≡ false → a ≡ b
unfolding bytes_lt
bytes_lt_total [] [] h k = refl
bytes_lt_total [] (y ∷ b) h k = cc
bytes_lt_total (x ∷ a) [] h k = cc
bytes_lt_total (x ∷ a) (y ∷ b) h k = ground (arith, bytes_lt_total a b)

-- A prefix is what some rest completes.
pub has_prefix_iff : (s p : Bytes) → (has_prefix s p ≡ true) ↔ ((rest : Bytes) × (s ≡ p ++ rest))
unfolding has_prefix
has_prefix_iff s [] = ((λ h. (s, refl)), (λ h. refl))
has_prefix_iff [] (p ∷ ps) = ((λ h. cc), (λ (rest, e). cc))
has_prefix_iff (x ∷ s) (p ∷ ps) = (
  (λ h. let (rest, e) = (has_prefix_iff s ps).0 (ground arith) in (rest, ground arith)),
  (λ (rest, e). ground (arith, (has_prefix_iff s ps).1 (rest, ground arith))),
)
