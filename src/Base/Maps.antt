-- ===== src/Base/Maps.antt =====
-- Go maps as association lists. The order of the list is an order in which `range` may visit
-- the entries, so what holds of every list holds of every order of iteration.
use mathlib.Core.Path.{◌≡◌, refl, sym}
use mathlib.Core.Logic.{inl, inr}
use mathlib.Core.Bool.{Bool, false}
use mathlib.Core.List.{List, [], ◌∷◌}
use mathlib.Core.Option.{Option, none, some}
use native.Mathlib.Omega.{arith}
use Prim.Native.Nat.{◌+◌, ◌≤◌}
use crawlledger.Base.Tests.{if◌then◌else◌, Bool-cases}
use crawlledger.Base.Lists.{length, All}
use crawlledger.Base.Keys.{Key}

abbrev pub Assoc : Type 0 → Type 0 → Type 0
Assoc K V = List (K × V)

module _ {K V : Type 0} ⦃e : Key K⦄ where
  -- m[k], with the test whether it is there
  unfoldable pub lookup : K → Assoc K V → Option V
  lookup k [] = none
  lookup k ((j, v) ∷ m) = if e.same j k then some v else lookup k m

  -- m[k] = v
  unfoldable pub insert : K → V → Assoc K V → Assoc K V
  insert k v [] = (k, v) ∷ []
  insert k v ((j, w) ∷ m) = if e.same j k then (j, v) ∷ m else (j, w) ∷ insert k v m

  pub lookup-insert :
      (written key : K) (new : V) (m : Assoc K V)
      → lookup key (insert written new m) ≡ (if e.same written key then some new else lookup key m)
  unfolding lookup insert
  lookup-insert written key new [] = refl
  lookup-insert written key new ((first, old) ∷ m) =
      let later = lookup-insert written key new m in
      ground (arith, later, e.same_iff first key, e.same_iff first written, e.same_iff written key)

  pub length-insert : (k : K) (v : V) (m : Assoc K V) → length (insert k v m) ≤ length m + 1
  unfolding insert
  length-insert k v [] = omega arith
  length-insert k v ((i, w) ∷ m) = ground (arith, length-insert k v m)

  -- A write to a key that is there adds no entry.
  pub length-insert_known :
      (k : K) (v w : V) (m : Assoc K V) → lookup k m ≡ some w → length (insert k v m) ≡ length m
  unfolding lookup insert
  length-insert_known k v w [] h = cc
  length-insert_known k v w ((i, u) ∷ m) h = ground (arith, length-insert_known k v w m)

module _ {K V : Type 0} ⦃e : Key K⦄ where
  -- No entry has the key of an earlier one, as in a Go map.
  abbrev pub IsDistinct : Assoc K V → Type 0
  IsDistinct [] = Unit
  IsDistinct ((k, v) ∷ m) = All (λ (entry : K × V). e.same k entry.0 ≡ false) m × IsDistinct m

  All-insert_key :
      (P : K → Type 0) (k : K) (v : V) (m : Assoc K V)
      → P k
      → All (λ (entry : K × V). P entry.0) m
      → All (λ (entry : K × V). P entry.0) (insert k v m)
  unfolding insert
  All-insert_key P k v [] p a = (p, tt)
  All-insert_key P k v ((j, w) ∷ m) p a = elim (Bool-cases (e.same j k)) [
    | inl known ↦ rw known a
    | inr fresh ↦ rw fresh (a.0, All-insert_key P k v m p a.1)
  ]

  pub insert-IsDistinct : (k : K) (v : V) (m : Assoc K V) → IsDistinct m → IsDistinct (insert k v m)
  unfolding insert
  insert-IsDistinct k v [] h = (tt, tt)
  insert-IsDistinct k v ((j, w) ∷ m) h = elim (Bool-cases (e.same j k)) [
    | inl known ↦ rw known h
    | inr fresh ↦
        rw fresh
          (All-insert_key (λ i. e.same j i ≡ false) k v m fresh h.0, insert-IsDistinct k v m h.1)
  ]

  All-others :
      (P Q : K → V → Type 0) (k : K) (m : Assoc K V)
      → ((j : K) (w : V) → e.same k j ≡ false → P j w → Q j w)
      → All (λ (entry : K × V). e.same k entry.0 ≡ false) m
      → All (λ (entry : K × V). P entry.0 entry.1) m
      → All (λ (entry : K × V). Q entry.0 entry.1) m
  All-others P Q k [] f d a = tt
  All-others P Q k ((j, w) ∷ m) f d a = (f j w d.0 a.0, All-others P Q k m f d.1 a.1)

  -- After a write every entry is the one written or an earlier one of another key.
  pub All-insert :
      (P Q : K → V → Type 0) (k : K) (v : V) (m : Assoc K V)
      → IsDistinct m
      → ((j : K) (w : V) → e.same k j ≡ false → P j w → Q j w)
      → Q k v
      → All (λ (entry : K × V). P entry.0 entry.1) m
      → All (λ (entry : K × V). Q entry.0 entry.1) (insert k v m)
  unfolding insert
  All-insert P Q k v [] d f q a = (q, tt)
  All-insert P Q k v ((j, w) ∷ m) d f q a = elim (Bool-cases (e.same j k)) [
    | inl known ↦
        let same : k ≡ j = sym ((e.same_iff j k).0 known) in
        rw known ((rw same at q), All-others P Q j m (rw same at f) d.0 a.1)
    | inr fresh ↦ rw fresh (f j w (same_sym j k fresh) a.0, All-insert P Q k v m d.1 f q a.1)
  ]
    where
      same_sym : (i l : K) → e.same i l ≡ false → e.same l i ≡ false
      same_sym i l h = ground (arith, e.same_iff i l, e.same_iff l i)

module _ {K V : Type 0} where
  -- The loop that deletes every entry whose key fails a test.
  unfoldable pub keep_keys : (K → Bool) → Assoc K V → Assoc K V
  keep_keys p [] = []
  keep_keys p ((k, v) ∷ m) = let rest = keep_keys p m in if p k then (k, v) ∷ rest else rest

  pub length-keep_keys : (p : K → Bool) (m : Assoc K V) → length (keep_keys p m) ≤ length m
  unfolding keep_keys
  length-keep_keys p [] = omega arith
  length-keep_keys p ((k, v) ∷ m) = ground (arith, length-keep_keys p m)
