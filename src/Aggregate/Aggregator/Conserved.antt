-- ===== src/Aggregate/Aggregator/Conserved.antt =====
-- aggregate/aggregator.go: every event that is accepted is in one cell of the batches.
use crawlledger.Domain.Event.{Event}
use crawlledger.Aggregate.Rows.{CellRow, Batch}
use crawlledger.Aggregate.MapKeys.{pair_key, class_key, cache_key, CellKey, SubjectKey}
use crawlledger.Aggregate.Counters.{sum_of, add_cell}
use crawlledger.Aggregate.Aggregator.{
  Summary, Aggregator, count_cell, cell_at, cell_key, new_cell, SubjectAccumulator,
}
use crawlledger.Aggregate.Aggregator.Events.{add_summary}
use crawlledger.Aggregate.Aggregator.Flush.{batch_of, sort_batch, values_of, flush, cell_less}
use crawlledger.Aggregate.Aggregator.Add.{add_rate, add_route, put_subject, add_subject, identify}
use crawlledger.Base.{
  ℕ, ◌+◌, ◌≡◌, refl, ap, ◌∙◌, inl, inr, Bool, Option, none, some, List, [], ◌∷◌, arith, Bool-cases,
  ok, ◌>>=◌, >>=-eq-ok, Bytes, Assoc, lookup, insert, insert_by, sort_by, nat_key, bytes_key,
}

abbrev pub requests_of : List CellRow → ℕ
requests_of [] = 0
requests_of (c ∷ cs) = c.requests + requests_of cs

abbrev pub pending : Assoc CellKey CellRow → ℕ
pending [] = 0
pending ((k, c) ∷ m) = c.requests + pending m

abbrev pub delivered : List Batch → ℕ
delivered [] = 0
delivered (b ∷ bs) = requests_of b.cells + delivered bs

-- The events accepted are those in the cells that wait and in the batches that the sink took.
abbrev pub IsConserved : Aggregator → Type 0
IsConserved a = pending a.cells + delivered a.flushed ≡ a.summary.accepted

-- A step that touches neither the cells, nor the batches, nor the count of the events.
pub record Same (a b : Aggregator) : Type 0 where
  pub cells : b.cells ≡ a.cells
  pub flushed : b.flushed ≡ a.flushed
  pub accepted : b.summary.accepted ≡ a.summary.accepted

requests-insert_by :
    (c : CellRow) (cs : List CellRow)
    → requests_of (insert_by cell_less c cs) ≡ c.requests + requests_of cs
unfolding insert_by
requests-insert_by c [] = refl
requests-insert_by c (d ∷ ds) =
    let rest = requests-insert_by c ds in
    elim (Bool-cases (cell_less d c)) [
      | inl less ↦ rw less (omega (arith, rest))
      | inr more ↦ rw more refl
    ]

requests-sort_by : (cs : List CellRow) → requests_of (sort_by cell_less cs) ≡ requests_of cs
unfolding sort_by
requests-sort_by [] = refl
requests-sort_by (c ∷ cs) =
    let rest = requests-sort_by cs in
    let put = requests-insert_by c (sort_by cell_less cs) in omega (arith, rest, put)

requests-values_of : (m : Assoc CellKey CellRow) → requests_of (values_of m) ≡ pending m
unfolding values_of
requests-values_of [] = refl
requests-values_of ((k, c) ∷ m) = omega (arith, requests-values_of m)

pub requests-batch_of : (a : Aggregator) → requests_of (batch_of a).cells ≡ pending a.cells
unfolding batch_of sort_batch
requests-batch_of a = requests-sort_by (values_of a.cells) ∙ requests-values_of a.cells

pub flush-IsConserved :
    (alive takes : Bool) (a b : Aggregator)
    → IsConserved a
    → flush alive takes a ≡ ok b
    → IsConserved b
unfolding flush
flush-IsConserved alive takes a b h f = let sum = requests-batch_of a in ground arith

abbrev count_before : Option CellRow → ℕ
count_before none = 0
count_before (some c) = c.requests

pending-insert :
    (k : CellKey) (c : CellRow) (m : Assoc CellKey CellRow)
    → pending (insert k c m) + count_before (lookup k m) ≡ pending m + c.requests
unfolding insert lookup
pending-insert k c [] = omega arith
pending-insert k c ((j, d) ∷ m) =
    let rest = pending-insert k c m in
    elim (Bool-cases (pair_key.same j k)) [
      | inl known ↦ rw known (omega arith)
      | inr fresh ↦ rw fresh (omega (arith, rest))
    ]

add_cell-requests : (c d : CellRow) (e : Event) → add_cell c e ≡ ok d → d.requests ≡ c.requests + 1
unfolding add_cell sum_of
add_cell-requests c d e h =
    let (n, first, rest) = >>=-eq-ok (sum_of c.requests 1) _ h in ground arith

none_sum :
    (before pending_ sum requests : ℕ)
    → before ≡ 0
    → sum + before ≡ pending_ + requests
    → requests ≡ 1
    → {total : ℕ} → total ≡ sum
    → total ≡ pending_ + 1
none_sum before pending_ sum requests a b c d = omega (arith, a, b, c, d)

some_sum :
    (before pending_ sum requests old : ℕ)
    → before ≡ old
    → sum + before ≡ pending_ + requests
    → requests ≡ old + 1
    → {total : ℕ} → total ≡ sum
    → total ≡ pending_ + 1
some_sum before pending_ sum requests old a b c d = omega (arith, a, b, c, d)

-- The cell of the event has one request more.
pub count_cell-pending :
    (cells next : Assoc CellKey CellRow) (route ua : ℕ) (e : Event)
    → count_cell cells route ua e ≡ ok next
    → pending next ≡ pending cells + 1
unfolding count_cell cell_at
count_cell-pending cells next route ua e h = split (lookup (cell_key route ua e) cells) refl h
  where
    split :
        (o : Option CellRow)
        → lookup (cell_key route ua e) cells ≡ o
        → (add_cell (elim o [ none ↦ new_cell route ua e | some cell ↦ cell ]) e
            >>= (λ cell. ok (insert (cell_key route ua e) cell cells)))
          ≡ ok next
        → pending next ≡ pending cells + 1
    split none s g =
        let (d, counted, same) = >>=-eq-ok (add_cell (new_cell route ua e) e) _ g in
        let one = add_cell-requests (new_cell route ua e) d e counted in
        let sum = pending-insert (cell_key route ua e) d cells in
        let old = ap count_before s in
        let put : next ≡ insert (cell_key route ua e) d cells = ground arith in
        let total = ap pending put in none_sum _ _ _ d.requests old sum one total
    split (some c) s g =
        let (d, counted, same) = >>=-eq-ok (add_cell c e) _ g in
        let one = add_cell-requests c d e counted in
        let sum = pending-insert (cell_key route ua e) d cells in
        let old = ap count_before s in
        let put : next ≡ insert (cell_key route ua e) d cells = ground arith in
        let total = ap pending put in some_sum _ _ _ d.requests c.requests old sum one total

pub Same-trans : (a b c : Aggregator) → Same a b → Same b c → Same a c
Same-trans a b c s t = record {
  cells = t.cells ∙ s.cells;
  flushed = t.flushed ∙ s.flushed;
  accepted = t.accepted ∙ s.accepted;
}

pub add_rate-Same : (ua : ℕ) (e : Event) (a b : Aggregator) → add_rate ua e a ≡ ok b → Same a b
unfolding add_rate
add_rate-Same ua e a b h = record {
  cells = ground arith;
  flushed = ground arith;
  accepted = ground arith;
}

module _ (sha64 : Bytes → ℕ) (claim_hash : Bytes → Bytes) (e : Event) (a b : Aggregator) where
  pub identify-Same : (pair : ℕ × ℕ) → identify sha64 claim_hash e a ≡ ok (pair, b) → Same a b
  unfolding identify
  identify-Same pair h = record {
    cells = ground arith;
    flushed = ground arith;
    accepted = ground arith;
  }

  pub add_route-Same : (route : ℕ) → add_route sha64 claim_hash route e a ≡ ok b → Same a b
  unfolding add_route
  add_route-Same route h = record {
    cells = ground arith;
    flushed = ground arith;
    accepted = ground arith;
  }

  put_subject-Same :
      (key : SubjectKey) (subject : SubjectAccumulator)
      → put_subject sha64 claim_hash key subject e a ≡ ok b
      → Same a b
  unfolding put_subject
  put_subject-Same key subject h = record {
    cells = ground arith;
    flushed = ground arith;
    accepted = ground arith;
  }

  pub add_subject-Same : (ua : ℕ) → add_subject sha64 claim_hash ua e a ≡ ok b → Same a b
  unfolding add_subject put_subject
  add_subject-Same ua h = record {
    cells = ground arith;
    flushed = ground arith;
    accepted = ground arith;
  }

pub add_summary-accepted :
    (s t : Summary) (e : Event) → add_summary s e ≡ ok t → t.accepted ≡ s.accepted + 1
unfolding add_summary sum_of
add_summary-accepted s t e h =
    let (n, first, rest) = >>=-eq-ok (sum_of s.accepted 1) _ h in ground arith
