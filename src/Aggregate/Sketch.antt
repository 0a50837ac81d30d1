-- ===== src/Aggregate/Sketch.antt =====
-- internal/aggregate/kmv.go: the k smallest hashes of a stream, and the estimate of the number of
-- distinct values. The SHA-256 prefix of `Add` is the argument `sha64`.
pub mod Search
pub mod Insertion
pub mod Streams
pub mod Estimate
pub mod Codec
use crawlledger.Base.{
  ℕ, zero, suc, ◌+◌, ◌-◌, ◌*◌, ◌/◌, ◌%◌, ◌^◌, ◌≤◌, ◌<◌, min, Bool, false, ◌&&◌, ◌||◌, none, some,
  List, [], ◌∷◌, ◌++◌, ltb, leb, ◌==◌, if◌then◌else◌, length, get_elem?, get_or, take, drop, All,
  max_int64, Bytes,
}

abbrev pub kmv_k : ℕ
kmv_k = 64

pub record Sketch : Type 0 where
  pub values : List ℕ

abbrev pub empty : Sketch
empty = record { values = [] }

-- The loop of sort.Search. A step halves the range, so fuel for its length is enough.
unfoldable pub search_from : ℕ → ℕ → ℕ → ℕ → List ℕ → ℕ
search_from zero low high value values = low
search_from (suc fuel) low high value values =
    let middle = (low + high) / 2 in
    let reached = leb value (get_or values middle 0) in
    let rest =
      search_from fuel (if reached then low else middle + 1) (if reached then middle else high)
        value values in
    if ltb low high then rest else low

-- sort.Search over the values, for one that is not below `value`.
unfoldable pub search : ℕ → List ℕ → ℕ
unfolding search_from
search value values = search_from (length values) 0 (length values) value values

-- values[index] == value, false out of range
unfoldable pub value_at : List ℕ → ℕ → ℕ → Bool
value_at values index value = elim (get_elem? values index) [ none ↦ false | some x ↦ x == value ]

-- The append of a zero, the copy and the write at `index`.
unfoldable pub insert_at : ℕ → ℕ → List ℕ → List ℕ
insert_at index value values = take index values ++ value ∷ drop index values

unfoldable pub truncate : List ℕ → List ℕ
truncate values = if ltb kmv_k (length values) then take kmv_k values else values

unfoldable pub add_hash : ℕ → Sketch → Sketch
unfolding search value_at insert_at truncate
add_hash value s =
    let index = search value s.values in
    if value_at s.values index value
    then s
    else if length s.values == kmv_k && index == length s.values
    then s
    else record { values = truncate (insert_at index value s.values) }

unfoldable pub add : (Bytes → ℕ) → Bytes → Sketch → Sketch
unfolding add_hash
add sha64 value s = add_hash (sha64 value) s

-- The loop of `Merge`, and a stream of hashes in general.
unfoldable pub add_hashes : List ℕ → Sketch → Sketch
add_hashes [] s = s
add_hashes (v ∷ vs) s = add_hashes vs (add_hash v s)

unfoldable pub merge : Sketch → Sketch → Sketch
unfolding add_hashes add_hash
merge s other = add_hashes other.values s

-- 63 * 2 ^ 64 / kth as an int64, if it is one; `math/big` is exact.
unfoldable pub kth_estimate : ℕ → ℕ → ℕ
kth_estimate kth total =
    let estimate = (kmv_k - 1) * 2 ^ 64 / kth in
    if ltb max_int64 estimate || ltb total estimate
    then total
    else if ltb estimate kmv_k
    then kmv_k
    else estimate

unfoldable pub estimate : Sketch → ℕ → ℕ
unfolding kth_estimate
estimate s total =
    if ltb (length s.values) kmv_k
    then length s.values
    else let kth = get_or s.values (kmv_k - 1) 0 in
      if kth == 0 then min total kmv_k else kth_estimate kth total

unfoldable pub conservative : Sketch → ℕ → ℕ
unfolding estimate
conservative s total =
    let e = estimate s total in
    if ltb (length s.values) kmv_k then e else e / 1000000 * 619000 + e % 1000000 * 619000 / 1000000

unfoldable pub approximate : Sketch → Bool
approximate s = length s.values == kmv_k

-- Strictly ascending: the order that every operation keeps.
abbrev pub IsAscending : List ℕ → Type 0
IsAscending [] = Unit
IsAscending (x ∷ xs) = All (λ y. x < y) xs × IsAscending xs

pub record IsSketch (s : Sketch) : Type 0 where
  pub ascending : IsAscending s.values
  pub bounded : length s.values ≤ 64
