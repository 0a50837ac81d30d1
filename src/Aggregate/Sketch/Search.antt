-- ===== src/Aggregate/Sketch/Search.antt =====
-- aggregate/kmv.go: the binary search of `AddHash` finds the place of a value among ascending ones.
use crawlledger.Aggregate.Sketch.{search_from, search, IsAscending}
use crawlledger.Base.{
  ℕ, zero, suc, ◌+◌, ◌/◌, ◌≤◌, ◌<◌, ◌≡◌, inl, inr, true, false, List, [], ◌∷◌, arith, ltb, leb,
  if◌then◌else◌, Bool-cases, length, get_or, All, nat_key, bytes_key,
}

-- The first index whose value is not below `value`, one after the other.
unfoldable pub first_at : ℕ → List ℕ → ℕ
first_at value [] = 0
first_at value (x ∷ xs) = if leb value x then 0 else suc (first_at value xs)

All-get_or_above :
    (x : ℕ) (xs : List ℕ) (i : ℕ) → All (λ y. x < y) xs → i < length xs → x < get_or xs i 0
All-get_or_above x [] i a h = absurd (omega arith)
All-get_or_above x (y ∷ ys) zero a h = a.0
All-get_or_above x (y ∷ ys) (suc i) a h = All-get_or_above x ys i a.1 (omega arith)

first_at-le : (v : ℕ) (xs : List ℕ) → first_at v xs ≤ length xs
unfolding first_at
first_at-le v [] = omega arith
first_at-le v (x ∷ xs) = ground (arith, first_at-le v xs)

-- Among ascending values, those before the place are below the value and no others.
first_at_splits :
    (v : ℕ) (xs : List ℕ) (i : ℕ)
    → IsAscending xs
    → i < length xs
    → (leb v (get_or xs i 0) ≡ true → first_at v xs ≤ i)
      × (leb v (get_or xs i 0) ≡ false → i < first_at v xs)
unfolding first_at
first_at_splits v [] i s h = absurd (omega arith)
first_at_splits v (x ∷ xs) zero s h = (λ reached. ground arith, λ below. ground arith)
first_at_splits v (x ∷ xs) (suc i) s h =
    let later = first_at_splits v xs i s.1 (omega arith) in
    let above = All-get_or_above x xs i s.0 (omega arith) in
    (λ reached. ground (arith, later.0 reached), λ below. ground (arith, later.1 below))

module _ (v : ℕ) (xs : List ℕ) (sorted : IsAscending xs) where
  search_from-first_at :
      (fuel low high : ℕ)
      → high ≤ low + fuel
      → low ≤ first_at v xs
      → first_at v xs ≤ high
      → high ≤ length xs
      → search_from fuel low high v xs ≡ first_at v xs
  unfolding search_from
  search_from-first_at zero low high f l h b = omega arith
  search_from-first_at (suc fuel) low high f l h b = elim (Bool-cases (ltb low high)) [
    | inr done ↦ rw done (ground arith)
    | inl open_ ↦
        let middle = (low + high) / 2 in
        let less : low < high = ground arith in
        let split = first_at_splits v xs middle sorted (omega arith) in
        elim (Bool-cases (leb v (get_or xs middle 0))) [
          | inl reached ↦
              rw (open_, reached)
                (search_from-first_at fuel low middle (omega arith) l (split.0 reached)
                  (omega arith))
          | inr below ↦
              let after = split.1 below in
              rw (open_, below)
                (search_from-first_at fuel (middle + 1) high (omega arith) (omega arith) h b)
        ]
  ]

  pub search-first_at : search v xs ≡ first_at v xs
  unfolding search
  search-first_at =
      search_from-first_at (length xs) 0 (length xs) (omega arith) (omega arith) (first_at-le v xs)
        (omega arith)
