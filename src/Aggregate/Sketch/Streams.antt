-- ===== src/Aggregate/Sketch/Streams.antt =====
-- The sketch of a stream is the 64 smallest of its distinct hashes, whatever their order.
use crawlledger.Aggregate.Sketch.{Sketch, empty, add_hash, add_hashes, IsAscending, IsSketch}
use crawlledger.Aggregate.Sketch.Insertion.{
  add_value, add_hash-take, add_value-IsAscending, add_hash-IsSketch,
}
use crawlledger.Base.{
  ℕ, zero, suc, ◌≤◌, ◌<◌, ◌≡◌, refl, sym, ap, ◌∙◌, inl, inr, Bool, false, ◌||◌, List, [], ◌∷◌,
  arith, ltb, ◌==◌, Bool-cases, take, All, nat_key, bytes_key,
}

-- Whether `v` occurs.
unfoldable pub occurs : ℕ → List ℕ → Bool
occurs v [] = false
occurs v (x ∷ xs) = x == v || occurs v xs

-- All distinct values of a stream, ascending.
pub distinct_onto : List ℕ → List ℕ → List ℕ
distinct_onto [] acc = acc
distinct_onto (v ∷ vs) acc = distinct_onto vs (add_value v acc)

occurs-add_value : (w v : ℕ) (xs : List ℕ) → occurs w (add_value v xs) ≡ (v == w || occurs w xs)
unfolding occurs add_value
occurs-add_value w v [] = refl
occurs-add_value w v (x ∷ xs) = ground (arith, occurs-add_value w v xs)

pub occurs-distinct_onto :
    (w : ℕ) (vs acc : List ℕ) → occurs w (distinct_onto vs acc) ≡ (occurs w vs || occurs w acc)
unfolding occurs distinct_onto
occurs-distinct_onto w [] acc = refl
occurs-distinct_onto w (v ∷ vs) acc =
    ground (arith, occurs-distinct_onto w vs (add_value v acc), occurs-add_value w v acc)

pub distinct_onto-IsAscending :
    (vs acc : List ℕ) → IsAscending acc → IsAscending (distinct_onto vs acc)
unfolding distinct_onto
distinct_onto-IsAscending [] acc h = h
distinct_onto-IsAscending (v ∷ vs) acc h =
    distinct_onto-IsAscending vs (add_value v acc) (add_value-IsAscending v acc h)

take-take : (k : ℕ) (xs : List ℕ) → take k (take k xs) ≡ take k xs
take-take zero xs = refl
take-take (suc k) [] = refl
take-take (suc k) (x ∷ xs) = ap (◌∷◌ x) (take-take k xs)

take-cons-take : (k x : ℕ) (xs : List ℕ) → take k (x ∷ take k xs) ≡ take k (x ∷ xs)
take-cons-take zero x xs = refl
take-cons-take (suc k) x [] = refl
take-cons-take (suc k) x (y ∷ xs) = ap (◌∷◌ x) (take-cons-take k y xs)

-- What lies beyond the first `k` values does not reach them by an insertion.
take-add_value :
    (k v : ℕ) (xs : List ℕ) → take k (add_value v (take k xs)) ≡ take k (add_value v xs)
unfolding add_value
take-add_value zero v xs = refl
take-add_value (suc k) v [] = refl
take-add_value (suc k) v (x ∷ xs) = elim (Bool-cases (v == x)) [
  | inl known ↦ rw known (ap (◌∷◌ x) (take-take k xs))
  | inr fresh ↦ elim (Bool-cases (ltb v x)) [
    | inl below ↦ rw (fresh, below) (ap (◌∷◌ v) (take-cons-take k x xs))
    | inr above ↦ rw (fresh, above) (ap (◌∷◌ x) (take-add_value k v xs))
  ]
]

add_hashes-take :
    (vs acc : List ℕ) (s : Sketch)
    → IsSketch s
    → s.values ≡ take 64 acc
    → (add_hashes vs s).values ≡ take 64 (distinct_onto vs acc)
unfolding add_hashes distinct_onto
add_hashes-take [] acc s h e = e
add_hashes-take (v ∷ vs) acc s h e =
    add_hashes-take vs (add_value v acc) (add_hash v s) (add_hash-IsSketch v s h)
      (add_hash-take v s h ∙ rw e (take-add_value 64 v acc))

IsSketch-empty : IsSketch empty
IsSketch-empty = record { ascending = tt; bounded = omega arith }

-- The 64 smallest distinct values of a stream: the first 64 of an ascending list with exactly
-- its values.
pub record IsAscendingSetOf (vs : List ℕ) (s : Sketch) : Type 0 where
  pub all_values : List ℕ
  pub smallest : s.values ≡ take 64 all_values
  pub ascending : IsAscending all_values
  pub same : (w : ℕ) → occurs w all_values ≡ occurs w vs

-- A sketch fed with a stream of hashes holds the 64 smallest of its distinct hashes: the first 64
-- of an ascending list with exactly the values of the stream.
pub add_hashes-smallest : (vs : List ℕ) → IsAscendingSetOf vs (add_hashes vs empty)
unfolding occurs
add_hashes-smallest vs = record {
  all_values = distinct_onto vs [];
  smallest = add_hashes-take vs [] empty IsSketch-empty refl;
  ascending = distinct_onto-IsAscending vs [] tt;
  same = λ w. ground (arith, occurs-distinct_onto w vs []);
}

occurs_above : (b w : ℕ) (xs : List ℕ) → All (λ y. b < y) xs → w ≤ b → occurs w xs ≡ false
unfolding occurs
occurs_above b w [] h k = refl
occurs_above b w (x ∷ xs) h k = ground (arith, occurs_above b w xs h.1 k)

-- An ascending list is determined by the values that occur in it.
IsAscending-unique :
    (xs ys : List ℕ)
    → IsAscending xs
    → IsAscending ys
    → ((w : ℕ) → occurs w xs ≡ occurs w ys)
    → xs ≡ ys
unfolding occurs
IsAscending-unique [] [] h k same = refl
IsAscending-unique [] (y ∷ ys) h k same = ground (arith, same y)
IsAscending-unique (x ∷ xs) [] h k same = ground (arith, same x)
IsAscending-unique (x ∷ xs) (y ∷ ys) h k same =
    let heads : x ≡ y =
      ground (arith, same x, same y, occurs_above y x ys k.0, occurs_above x y xs h.0) in
    let tails : (w : ℕ) → occurs w xs ≡ occurs w ys =
      λ w. ground (arith, same w, occurs_above x w xs h.0, occurs_above y w ys k.0) in
    ap₂' heads (IsAscending-unique xs ys h.1 k.1 tails)
  where
    ap₂' : {a b : ℕ} {l m : List ℕ} → a ≡ b → l ≡ m → a ∷ l ≡ b ∷ m
    ap₂' p q = cc

-- Two streams with the same distinct hashes, in any order and number, have the same sketch.
pub add_hashes_same_set :
    (vs us : List ℕ)
    → ((w : ℕ) → occurs w vs ≡ occurs w us)
    → add_hashes vs empty ≡ add_hashes us empty
add_hashes_same_set vs us same =
    let a = add_hashes-smallest vs in
    let b = add_hashes-smallest us in
    let e =
      IsAscending-unique a.all_values b.all_values a.ascending b.ascending
        (λ w. a.same w ∙ same w ∙ sym (b.same w)) in
    Sketch_eq _ _ (a.smallest ∙ ap (take 64) e ∙ sym b.smallest)
  where
    Sketch_eq : (s t : Sketch) → s.values ≡ t.values → s ≡ t
    Sketch_eq s t p = λ i. record { values = p i }
