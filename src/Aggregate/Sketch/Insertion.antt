-- ===== src/Aggregate/Sketch/Insertion.antt =====
-- `AddHash` against insertion into an unbounded ascending list.
use crawlledger.Aggregate.Sketch.{
  Sketch, kmv_k, value_at, insert_at, truncate, add_hash, IsAscending, IsSketch,
}
use crawlledger.Aggregate.Sketch.Search.{first_at, search-first_at}
use crawlledger.Base.{
  ℕ, zero, suc, ◌<◌, ◌≡◌, refl, sym, ap, ◌∙◌, inl, inr, true, false, ◌&&◌, List, [], ◌∷◌, arith,
  ltb, ◌==◌, if◌then◌else◌, Bool-cases, length, take, All, length-take-le, length-take_all, nat_key,
  bytes_key,
}

-- The reference: a set of numbers as an ascending list.
unfoldable pub add_value : ℕ → List ℕ → List ℕ
add_value v [] = v ∷ []
add_value v (x ∷ xs) = if v == x then x ∷ xs else if ltb v x then v ∷ x ∷ xs else x ∷ add_value v xs

-- At the index found the value stands already, and the set does not change,
add_value_known : (v : ℕ) (xs : List ℕ) → value_at xs (first_at v xs) v ≡ true → add_value v xs ≡ xs
unfolding add_value value_at first_at
add_value_known v [] h = cc
add_value_known v (x ∷ xs) h = ground (arith, add_value_known v xs)

-- or it belongs there.
add_value_new :
    (v : ℕ) (xs : List ℕ)
    → value_at xs (first_at v xs) v ≡ false
    → insert_at (first_at v xs) v xs ≡ add_value v xs
unfolding add_value value_at first_at insert_at
add_value_new v [] h = refl
add_value_new v (x ∷ xs) h = ground (arith, add_value_new v xs)

take-add_value_last :
    (v : ℕ) (xs : List ℕ) → first_at v xs ≡ length xs → take (length xs) (add_value v xs) ≡ xs
unfolding add_value first_at
take-add_value_last v [] h = refl
take-add_value_last v (x ∷ xs) h = ground (arith, take-add_value_last v xs)

pub truncate-take : (xs : List ℕ) → truncate xs ≡ take 64 xs
unfolding truncate
truncate-take xs = elim (Bool-cases (ltb kmv_k (length xs))) [
  | inl long ↦ rw long
  | inr short ↦ rw short (sym (length-take_all 64 xs (ground arith)))
]

module _ (v : ℕ) (s : Sketch) where
  add_hash_full :
      value_at s.values (first_at v s.values) v ≡ false
      → (length s.values == kmv_k && first_at v s.values == length s.values) ≡ true
      → s.values ≡ take 64 (add_value v s.values)
  add_hash_full fresh full =
      let e : length s.values ≡ 64 = ground arith in
      let last = take-add_value_last v s.values (ground arith) in sym (rw e at last)

  -- On a sketch, whose values are ascending and at most 64, `AddHash` by its binary search keeps the 64
  -- smallest of the values and the new hash: the first 64 of the ascending list with the hash in it.
  pub add_hash-take : IsSketch s → (add_hash v s).values ≡ take 64 (add_value v s.values)
  unfolding add_hash
  add_hash-take h =
      let bound = h.bounded in
      let place = search-first_at v s.values h.ascending in
      elim (Bool-cases (value_at s.values (first_at v s.values) v)) [
        | inl known ↦
            rw (place, known, add_value_known v s.values known) (sym (length-take_all 64 _ bound))
        | inr fresh ↦
            elim (Bool-cases (length s.values == kmv_k && first_at v s.values == length s.values)) [
              | inl full ↦ rw (place, fresh, full) (add_hash_full fresh full)
              | inr room ↦
                  rw (place, fresh, room)
                    (truncate-take _ ∙ ap (take 64) (add_value_new v s.values fresh))
            ]
      ]

All-add_value :
    (b v : ℕ) (xs : List ℕ) → b < v → All (λ y. b < y) xs → All (λ y. b < y) (add_value v xs)
unfolding add_value
All-add_value b v [] h a = (h, tt)
All-add_value b v (x ∷ xs) h a = ground (arith, All-add_value b v xs h a.1)

All-lt_trans : (a b : ℕ) (xs : List ℕ) → a < b → All (λ y. b < y) xs → All (λ y. a < y) xs
All-lt_trans a b [] h k = tt
All-lt_trans a b (x ∷ xs) h k = (omega arith, All-lt_trans a b xs h k.1)

pub add_value-IsAscending : (v : ℕ) (xs : List ℕ) → IsAscending xs → IsAscending (add_value v xs)
unfolding add_value
add_value-IsAscending v [] h = (tt, tt)
add_value-IsAscending v (x ∷ xs) h =
    ground (arith, add_value-IsAscending v xs h.1, All-add_value x v xs, All-lt_trans v x xs)

All-take : (b k : ℕ) (xs : List ℕ) → All (λ y. b < y) xs → All (λ y. b < y) (take k xs)
All-take b zero xs h = tt
All-take b (suc k) [] h = tt
All-take b (suc k) (x ∷ xs) h = (h.0, All-take b k xs h.1)

pub IsAscending-take : (k : ℕ) (xs : List ℕ) → IsAscending xs → IsAscending (take k xs)
IsAscending-take zero xs h = tt
IsAscending-take (suc k) [] h = tt
IsAscending-take (suc k) (x ∷ xs) h = (All-take x k xs h.0, IsAscending-take k xs h.1)

-- Every operation keeps the values ascending and at most 64.
pub add_hash-IsSketch : (v : ℕ) (s : Sketch) → IsSketch s → IsSketch (add_hash v s)
add_hash-IsSketch v s h =
    let e = add_hash-take v s h in
    record {
      ascending = rw e (IsAscending-take 64 _ (add_value-IsAscending v s.values h.ascending));
      bounded = rw e (length-take-le 64 (add_value v s.values));
    }
