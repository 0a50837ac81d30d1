-- ===== src/Protect/Baseline/Quantile.antt =====
-- `nearestRankP99` over the ascending non-zero values of a series of `total` minutes.
use crawlledger.Base.{
  ℕ, zero, suc, ◌+◌, ◌-◌, ◌*◌, ◌/◌, ◌%◌, ◌^◌, ◌≤◌, ◌<◌, ◌≡◌, refl, sym, ◌∙◌, inl, inr, true, false,
  Option, some, List, [], ◌∷◌, ◌++◌, arith, leb, ◌==◌, if◌then◌else◌, Bool-cases, length, get_elem?,
  replicate, All, length-append, length-replicate, max_int64, nat_key, bytes_key,
}

-- The product of the source as an int64: above `max_int64` it is this less 2^64.
abbrev pub product_of : ℕ → ℕ
product_of total = (99 * total + 99) % 2 ^ 64

abbrev pub rank_of : ℕ → ℕ
rank_of total = product_of total / 100

-- A rank is negative where the product has wrapped; this is its absolute value then.
abbrev pub negated_rank : ℕ → ℕ
negated_rank total = (2 ^ 64 - product_of total) / 100

-- `zeroValues = total - len(values)` may be negative there; the tests are written as sums, and
-- `none` is an index out of range.
unfoldable pub nearest_rank_p99 : List ℕ → ℕ → Option ℕ
nearest_rank_p99 values total =
    if total == 0
    then some 0
    else if leb (product_of total) max_int64
    then if leb (rank_of total + length values) total
      then some 0
      else get_elem? values (rank_of total + length values - total - 1)
    else if leb (length values) (total + negated_rank total)
    then some 0
    else get_elem? values (length values - total - negated_rank total - 1)

get_elem?-padded_zero : (z i : ℕ) (xs : List ℕ) → i < z → get_elem? (replicate z 0 ++ xs) i ≡ some 0
get_elem?-padded_zero zero i xs h = absurd (omega arith)
get_elem?-padded_zero (suc z) zero xs h = refl
get_elem?-padded_zero (suc z) (suc i) xs h = get_elem?-padded_zero z i xs (omega arith)

get_elem?-padded :
    (z i j : ℕ) (xs : List ℕ) → i ≡ z + j → get_elem? (replicate z 0 ++ xs) i ≡ get_elem? xs j
get_elem?-padded zero i j xs h = let e : i ≡ j = omega arith in rw e
get_elem?-padded (suc z) zero j xs h = absurd (omega arith)
get_elem?-padded (suc z) (suc i) j xs h = get_elem?-padded z i j xs (omega arith)

get_elem?-in_range : (xs : List ℕ) (i : ℕ) → i < length xs → (v : ℕ) × (get_elem? xs i ≡ some v)
get_elem?-in_range [] i h = absurd (omega arith)
get_elem?-in_range (x ∷ xs) zero h = (x, refl)
get_elem?-in_range (x ∷ xs) (suc i) h = get_elem?-in_range xs i (omega arith)

length-padded : (z : ℕ) (xs : List ℕ) → length (replicate z 0 ++ xs) ≡ z + length xs
length-padded z xs = omega (arith, length-append (replicate z 0) xs, length-replicate {A = ℕ} z 0)

small_rank : (total : ℕ) → 99 * total + 99 ≤ max_int64 → product_of total ≡ 99 * total + 99
small_rank total h = omega arith

nearest_rank-padded :
    (values : List ℕ) (total : ℕ)
    → 0 < total
    → length values ≤ total
    → 99 * total + 99 ≤ max_int64
    → nearest_rank_p99 values total
      ≡ get_elem? (replicate (total - length values) 0 ++ values) ((99 * total + 99) / 100 - 1)
unfolding nearest_rank_p99
nearest_rank-padded values total h k w =
    let e : (total == 0) ≡ false = ground arith in
    let small : leb (99 * total + 99) max_int64 ≡ true = ground arith in
    elim (Bool-cases (leb ((99 * total + 99) / 100 + length values) total)) [
      | inl low ↦
          rw (e, small_rank total w, small, low)
            (sym (get_elem?-padded_zero (total - length values) _ values (ground arith)))
      | inr high ↦
          rw (e, small_rank total w, small, high)
            (sym (get_elem?-padded (total - length values) _ _ values (ground arith)))
    ]

-- How many of the values are at most the bound.
unfoldable pub count_upto : ℕ → List ℕ → ℕ
count_upto bound [] = 0
count_upto bound (x ∷ xs) = (if leb x bound then 1 else 0) + count_upto bound xs

abbrev pub IsOrdered : List ℕ → Type 0
IsOrdered [] = Unit
IsOrdered (x ∷ xs) = All (λ y. x ≤ y) xs × IsOrdered xs

All-get_elem? :
    (b : ℕ) (xs : List ℕ) (i v : ℕ) → All (λ y. b ≤ y) xs → get_elem? xs i ≡ some v → b ≤ v
All-get_elem? b [] i v a e = cc e
All-get_elem? b (x ∷ xs) zero v a e = let same : x ≡ v = ground arith in rw (sym same) a.0
All-get_elem? b (x ∷ xs) (suc i) v a e = All-get_elem? b xs i v a.1 e

-- In ascending values, those up to the place of `v` are at most `v`,
count_upto_reaches :
    (xs : List ℕ) (i v : ℕ) → IsOrdered xs → get_elem? xs i ≡ some v → i < count_upto v xs
unfolding count_upto
count_upto_reaches [] i v s e = cc e
count_upto_reaches (x ∷ xs) zero v s e = let same : x ≡ v = ground arith in ground arith
count_upto_reaches (x ∷ xs) (suc i) v s e =
    let later = count_upto_reaches xs i v s.1 e in
    let first = All-get_elem? x xs i v s.0 e in ground arith

count_upto_none : (xs : List ℕ) (v w : ℕ) → All (λ y. v ≤ y) xs → w < v → count_upto w xs ≡ 0
unfolding count_upto
count_upto_none [] v w a h = refl
count_upto_none (x ∷ xs) v w a h =
    let first = a.0 in let rest = count_upto_none xs v w a.1 h in ground arith

-- and no others are below it.
count_upto_below :
    (xs : List ℕ) (i v w : ℕ) → IsOrdered xs → get_elem? xs i ≡ some v → w < v → count_upto w xs ≤ i
unfolding count_upto
count_upto_below [] i v w s e h = cc e
count_upto_below (x ∷ xs) zero v w s e h =
    let same : x ≡ v = ground arith in
    let rest = count_upto_none xs x w s.0 (omega arith) in ground arith
count_upto_below (x ∷ xs) (suc i) v w s e h =
    let later = count_upto_below xs i v w s.1 e h in ground arith

All-zero : (xs : List ℕ) → All (λ y. 0 ≤ y) xs
All-zero [] = tt
All-zero (x ∷ xs) = (omega arith, All-zero xs)

padded-IsOrdered : (z : ℕ) (xs : List ℕ) → IsOrdered xs → IsOrdered (replicate z 0 ++ xs)
padded-IsOrdered zero xs s = s
padded-IsOrdered (suc z) xs s = (All-zero (replicate z 0 ++ xs), padded-IsOrdered z xs s)

-- The least value that at least 99% of the minutes do not exceed, where a minute without a value
-- counts as zero.
pub record IsPercentile (values : List ℕ) (total : ℕ) (found : Option ℕ) : Type 0 where
  pub value : ℕ
  pub found_value : found ≡ some value
  pub reaches : 99 * total ≤ 100 * count_upto value (replicate (total - length values) 0 ++ values)
  pub least :
      (other : ℕ)
      → other < value
      → 100 * count_upto other (replicate (total - length values) 0 ++ values) < 99 * total

-- For ascending values, at most one for each of a positive number of minutes, where the product of
-- the rank is an int64: the index is in range, and the result is the 99th percentile of the values
-- with a zero for every minute that has none, the least value that at least 99% of them do not
-- exceed.
pub nearest_rank_p99-IsPercentile :
    (values : List ℕ) (total : ℕ)
    → IsOrdered values
    → 0 < total
    → length values ≤ total
    → 99 * total + 99 ≤ max_int64
    → IsPercentile values total (nearest_rank_p99 values total)
nearest_rank_p99-IsPercentile values total s h k w =
    let padded = replicate (total - length values) 0 ++ values in
    let place = (99 * total + 99) / 100 - 1 in
    let size = length-padded (total - length values) values in
    let (v, e) = get_elem?-in_range padded place (omega arith) in
    let ordered = padded-IsOrdered (total - length values) values s in
    let enough = count_upto_reaches padded place v ordered e in
    record {
      value = v;
      found_value = nearest_rank-padded values total h k w ∙ e;
      reaches = omega arith;
      least = λ other less.
          let few = count_upto_below padded place v other ordered e less in omega arith;
    }
