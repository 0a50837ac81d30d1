-- ===== src/Policy/Matcher/Search.antt =====
-- The binary search finds what is there.
use native.Mathlib.Decide.{dec_lt}
use crawlledger.Policy.Matcher.{search_from, sort_search, contains_name}
use crawlledger.Base.{
  ℕ, zero, suc, ◌+◌, ◌/◌, ◌≤◌, ◌<◌, ◌≡◌, refl, sym, inl, inr, true, false, ◌&&◌, List, [], ◌∷◌,
  arith, ltb, ltb→lt, lt→ltb, Bool-cases, Bool-ext, length, get_or, any, All, Bytes, bytes_eq,
  bytes_lt, bytes_eq_iff, bytes_eq_refl, bytes_lt_irrefl, bytes_lt_trans, nat_key, bytes_key,
}

-- Strictly ascending, as the validation of a policy demands.
abbrev pub IsSorted : List Bytes → Type 0
IsSorted [] = Unit
IsSorted (v ∷ vs) = All (λ w. bytes_lt v w ≡ true) vs × IsSorted vs

All-get_or :
    (P : Bytes → Type 0) (vs : List Bytes) (i : ℕ) → All P vs → i < length vs → P (get_or vs i [])
All-get_or P [] i a h = absurd (omega arith)
All-get_or P (v ∷ vs) zero a h = a.0
All-get_or P (v ∷ vs) (suc i) a h = All-get_or P vs i a.1 (omega arith)

get_or-ascending :
    (vs : List Bytes) (i j : ℕ)
    → IsSorted vs
    → i < j
    → j < length vs
    → bytes_lt (get_or vs i []) (get_or vs j []) ≡ true
get_or-ascending [] i j s h k = absurd (omega arith)
get_or-ascending (v ∷ vs) zero zero s h k = absurd (omega arith)
get_or-ascending (v ∷ vs) zero (suc j) s h k =
    All-get_or (λ w. bytes_lt v w ≡ true) vs j s.0 (omega arith)
get_or-ascending (v ∷ vs) (suc i) zero s h k = absurd (omega arith)
get_or-ascending (v ∷ vs) (suc i) (suc j) s h k =
    get_or-ascending vs i j s.1 (omega arith) (omega arith)

-- Where the search splits the values.
record Splits (values : List Bytes) (target : Bytes) (at : ℕ) : Type 0 where
  before : (i : ℕ) → i < at → i < length values → bytes_lt (get_or values i []) target ≡ true
  behind : (i : ℕ) → at ≤ i → i < length values → bytes_lt (get_or values i []) target ≡ false

module _ (values : List Bytes) (target : Bytes) (sorted : IsSorted values) where
  lower :
      (i middle : ℕ)
      → i < middle + 1
      → middle < length values
      → bytes_lt (get_or values middle []) target ≡ true
      → bytes_lt (get_or values i []) target ≡ true
  lower i middle h k below = elim (dec_lt i middle) [
    | yes less ↦
        bytes_lt_trans (get_or values i []) (get_or values middle []) target
          (get_or-ascending values i middle sorted less k) below
    | no same ↦ let e : i ≡ middle = omega arith in rw e below
  ]

  upper :
      (i middle : ℕ)
      → middle ≤ i
      → i < length values
      → bytes_lt (get_or values middle []) target ≡ false
      → bytes_lt (get_or values i []) target ≡ false
  upper i middle h k above = elim (Bool-cases (bytes_lt (get_or values i []) target)) [
    | inl low ↦ cc (lower middle i (omega arith) k low, above)
    | inr high ↦ high
  ]

  search_from-Splits :
      (fuel low high : ℕ)
      → high ≤ low + fuel
      → low ≤ high
      → high ≤ length values
      → ((i : ℕ) → i < low → i < length values → bytes_lt (get_or values i []) target ≡ true)
      → ((i : ℕ) → high ≤ i → i < length values → bytes_lt (get_or values i []) target ≡ false)
      → Splits values target (search_from fuel low high values target)
  unfolding search_from
  search_from-Splits zero low high f o b before behind = record {
    before = before;
    behind = λ i h k. behind i (omega arith) k;
  }
  search_from-Splits (suc fuel) low high f o b before behind = elim (Bool-cases (ltb low high)) [
    | inr done ↦ rw done (record { before = before; behind = λ i h k. behind i (ground arith) k })
    | inl open_ ↦
        let less = ltb→lt low high open_ in
        let middle = (low + high) / 2 in
        elim (Bool-cases (bytes_lt (get_or values middle []) target)) [
          | inl below ↦
              rw (open_, below)
                (search_from-Splits fuel (middle + 1) high (omega arith) (omega arith) b
                  (λ i h k. lower i middle h (omega arith) below) behind)
          | inr above ↦
              rw (open_, above)
                (search_from-Splits fuel low middle (omega arith) (omega arith) (omega arith) before
                  (λ i h k. upper i middle h k above))
        ]
  ]

  sort_search-Splits : Splits values target (sort_search values target)
  unfolding sort_search
  sort_search-Splits =
      search_from-Splits (length values) 0 (length values) (omega arith) (omega arith) (omega arith)
        (λ i h k. absurd (omega arith)) (λ i h k. absurd (omega arith))

any-get_or :
    (target : Bytes) (vs : List Bytes)
    → any (bytes_eq target) vs ≡ true
    → (i : ℕ) × (i < length vs) × (get_or vs i [] ≡ target)
any-get_or target [] h = cc h
any-get_or target (v ∷ vs) h = elim (Bool-cases (bytes_eq target v)) [
  | inl found ↦ (0, omega arith, sym ((bytes_eq_iff target v).0 found))
  | inr other ↦ let (i, bound, e) = any-get_or target vs (rw other at h) in (suc i, omega arith, e)
]

get_or-any :
    (target : Bytes) (vs : List Bytes) (i : ℕ)
    → i < length vs
    → get_or vs i [] ≡ target
    → any (bytes_eq target) vs ≡ true
get_or-any target [] i h e = absurd (omega arith)
get_or-any target (v ∷ vs) zero h e = rw (e, bytes_eq_refl) refl
get_or-any target (v ∷ vs) (suc i) h e =
    let rest = get_or-any target vs i (omega arith) e in ground arith

Splits-unique :
    (values : List Bytes) (target : Bytes) (index j : ℕ)
    → IsSorted values
    → Splits values target index
    → j < length values
    → get_or values j [] ≡ target
    → index ≡ j
Splits-unique values target index j sorted s bound e = elim (dec_lt j index) [
  | yes early ↦ let below = s.before j early bound in cc (rw e at below, bytes_lt_irrefl target)
  | no late ↦ elim (dec_lt index j) [
    | yes less ↦
        let not_below = s.behind index (omega arith) (omega arith) in
        let below = get_or-ascending values index j sorted less bound in
        cc (rw e at below, not_below)
    | no same ↦ omega arith
  ]
]

found-occurs :
    (values : List Bytes) (target : Bytes) (index : ℕ)
    → (ltb index (length values) && bytes_eq (get_or values index []) target) ≡ true
    → any (bytes_eq target) values ≡ true
found-occurs values target index h =
    let bound : index < length values = ground arith in
    let same : bytes_eq (get_or values index []) target ≡ true = ground arith in
    get_or-any target values index bound ((bytes_eq_iff (get_or values index []) target).0 same)

contains_name_complete :
    (values : List Bytes) (target : Bytes)
    → IsSorted values
    → any (bytes_eq target) values ≡ true
    → contains_name values target ≡ true
unfolding contains_name
contains_name_complete values target sorted h =
    let (j, bound, e) = any-get_or target values h in
    let index = sort_search values target in
    let here : index ≡ j =
      Splits-unique values target index j sorted (sort_search-Splits values target sorted) bound
        e in
    rw (here, e, bytes_eq_refl, lt→ltb j (length values) bound) refl

-- In values that are sorted and unique, the binary search of `contains` finds exactly the names
-- that occur.
pub contains_name-occurs :
    (values : List Bytes) (target : Bytes)
    → IsSorted values
    → contains_name values target ≡ any (bytes_eq target) values
unfolding contains_name
contains_name-occurs values target sorted =
    Bool-ext (contains_name values target) (any (bytes_eq target) values)
      (found-occurs values target (sort_search values target))
      (contains_name_complete values target sorted)
