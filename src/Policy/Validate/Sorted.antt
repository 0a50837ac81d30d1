-- ===== src/Policy/Validate/Sorted.antt =====
-- policy/validate.go: what an accepted policy promises to the matcher and to its reader.
use crawlledger.Policy.Matcher.{}
use crawlledger.Policy.Matcher.Search.{IsSorted}
use crawlledger.Policy.Validate.{strings_are_sorted, has_duplicate, sorted_unique, valid_array}
use crawlledger.Base.{
  ◌≡◌, inl, inr, true, false, List, [], ◌∷◌, arith, Bool-cases, All, Bytes, bytes_eq, bytes_lt,
  bytes_eq_iff, bytes_lt_trans, bytes_lt_total, nat_key, bytes_key,
}

-- Neighbours in sorted order that differ are ascending.
neighbours-less : (v w : Bytes) → bytes_lt w v ≡ false → bytes_eq v w ≡ false → bytes_lt v w ≡ true
neighbours-less v w s d = elim (Bool-cases (bytes_lt v w)) [
  | inl less ↦ less
  | inr more ↦ cc ((bytes_eq_iff v w).1 (bytes_lt_total v w more s), d)
]

All-above :
    (v w : Bytes) (vs : List Bytes)
    → bytes_lt v w ≡ true
    → All (λ u. bytes_lt w u ≡ true) vs
    → All (λ u. bytes_lt v u ≡ true) vs
All-above v w [] h a = tt
All-above v w (u ∷ us) h a = (bytes_lt_trans v w u h a.0, All-above v w us h a.1)

sorted_unique-IsSorted : (vs : List Bytes) → sorted_unique vs ≡ true → IsSorted vs
unfolding sorted_unique strings_are_sorted has_duplicate
sorted_unique-IsSorted [] h = tt
sorted_unique-IsSorted (v ∷ []) h = (tt, tt)
sorted_unique-IsSorted (v ∷ w ∷ vs) h =
    let s : bytes_lt w v ≡ false = ground arith in
    let d : bytes_eq v w ≡ false = ground arith in
    let less = neighbours-less v w s d in
    let rest = sorted_unique-IsSorted (w ∷ vs) (ground arith) in
    ((less, All-above v w vs less rest.0), rest)

pub valid_array-IsSorted : (vs : List Bytes) → valid_array vs ≡ true → IsSorted vs
unfolding valid_array
valid_array-IsSorted vs h = sorted_unique-IsSorted vs (ground arith)
