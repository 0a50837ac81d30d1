-- ===== src/Aggregate/Aggregator/Delivered.antt =====
-- aggregate/aggregator.go: what the sink has after Finish.
use crawlledger.Domain.Event.{Event}
use crawlledger.Aggregate.Rows.{CellRow, batch_empty}
use crawlledger.Aggregate.Counters.{Counted}
use crawlledger.Aggregate.Aggregator.{Limits, Summary, Aggregator, count_cell, count_all}
use crawlledger.Aggregate.Aggregator.Events.{new_aggregator, add_summary}
use crawlledger.Aggregate.Aggregator.Flush.{batch_of, flush, batch_full}
use crawlledger.Aggregate.Aggregator.Add.{
  add_rate, add_route, add_subject, identify, count_robots, count_event, add, add_all, finish,
  count_rest,
}
use crawlledger.Aggregate.Aggregator.Conserved.{
  requests_of, pending, delivered, IsConserved, flush-IsConserved, count_cell-pending, Same-trans,
  add_rate-Same, add_summary-accepted, requests-batch_of, identify-Same, add_route-Same,
  add_subject-Same,
}
use crawlledger.Base.{
  ℕ, ◌+◌, ◌≡◌, refl, sym, ap, ◌∙◌, inl, inr, Bool, true, List, [], ◌∷◌, arith, if◌then◌else◌,
  Bool-cases, ok, err, ◌>>=◌, >>=-eq-ok, length, Bytes, nat_key, bytes_key,
}

-- The whole run: every event, and the end.
abbrev pub run :
    (Bytes → ℕ)
    → (Bytes → Bytes)
    → Limits
    → List ((Bool × (Bool × Bool)) × Event)
    → Bool
    → Bool
    → Counted (Summary × Aggregator)
run sha64 claim_hash limits events alive takes =
    add_all sha64 claim_hash events (new_aggregator limits) >>= (λ a. finish alive takes a)

-- If the run ends well, the cells that the sink took hold every accepted event once.
abbrev pub IsDelivered : Counted (Summary × Aggregator) → Type 0
IsDelivered (err e) = Unit
IsDelivered (ok (s, a)) = delivered a.flushed ≡ s.accepted

ok_same :
    (a b : Aggregator)
    → let done : Aggregator → Counted Aggregator = λ x. ok x in done a ≡ done b → b ≡ a
ok_same a b h = ground arith

one_more :
    {pb pc p1 pa db da sb ss s4 sa : ℕ}
    → pb ≡ pc
    → pc ≡ p1 + 1
    → p1 ≡ pa
    → db ≡ da
    → sb ≡ ss
    → ss ≡ s4 + 1
    → s4 ≡ sa
    → pa + da ≡ sa
    → pb + db ≡ sb
one_more a b c d e f g h = omega (arith, a, b, c, d, e, f, g, h)

requests_none : (cells : List CellRow) → length cells ≡ 0 → requests_of cells ≡ 0
requests_none [] h = refl
requests_none (c ∷ cs) h = absurd (omega (arith, h))

module _ (sha64 : Bytes → ℕ) (claim_hash : Bytes → Bytes) where
  count_rest-accepted :
      (route ua : ℕ) (e : Event) (a b : Aggregator)
      → count_rest sha64 claim_hash route ua e a ≡ ok b
      → (b.cells ≡ a.cells)
        × (b.flushed ≡ a.flushed)
        × (b.summary.accepted ≡ a.summary.accepted + 1)
  unfolding count_rest
  count_rest-accepted route ua e a b h =
      let (robots, k1, h1) = >>=-eq-ok (count_robots sha64 claim_hash route ua e a.robots) _ h in
      let (query_keys, k2, h2) = >>=-eq-ok (count_all route e.query_keys a.query_keys) _ h1 in
      let (probes, k3, h3) = >>=-eq-ok (count_all route e.security_probe_ids a.probes) _ h2 in
      let (summary, s, h4) = >>=-eq-ok (add_summary a.summary e) _ h3 in
      let end = ok_same _ b h4 in
      let total = add_summary-accepted a.summary summary e s in
      (
        ap (λ (x : Aggregator). x.cells) end,
        ap (λ (x : Aggregator). x.flushed) end,
        ap (λ (x : Aggregator). x.summary.accepted) end ∙ total,
      )

  count_event-IsConserved :
      (e : Event) (a b : Aggregator)
      → IsConserved a
      → count_event sha64 claim_hash e a ≡ ok b
      → IsConserved b
  unfolding count_event
  count_event-IsConserved e a b c h =
      let (((route, ua), a1), i, h1) = >>=-eq-ok (identify sha64 claim_hash e a) _ h in
      let (cells, n, h2) = >>=-eq-ok (count_cell a1.cells route ua e) _ h1 in
      let (a2, r, h3) =
        >>=-eq-ok (add_route sha64 claim_hash route e (record a1 { cells = cells })) _ h2 in
      let (a3, u, h4) = >>=-eq-ok (add_subject sha64 claim_hash ua e a2) _ h3 in
      let (a4, p, h5) = >>=-eq-ok (add_rate ua e a3) _ h4 in
      let first = identify-Same sha64 claim_hash e a a1 (route, ua) i in
      let one = count_cell-pending a1.cells cells route ua e n in
      let rest =
        Same-trans _ a3 a4
          (Same-trans _ a2 a3 (add_route-Same sha64 claim_hash e _ a2 route r)
            (add_subject-Same sha64 claim_hash e a2 a3 ua u))
          (add_rate-Same ua e a3 a4 p) in
      let (kept_cells, kept_flushed, total) = count_rest-accepted route ua e a4 b h5 in
      let p1 = ap pending (kept_cells ∙ rest.cells) in
      let p2 = ap pending first.cells in
      let d = ap delivered (kept_flushed ∙ (rest.flushed ∙ first.flushed)) in
      let t = rest.accepted ∙ first.accepted in one_more p1 one p2 d refl total t c

  add-IsConserved :
      (answers : Bool × (Bool × Bool)) (e : Event) (a b : Aggregator)
      → IsConserved a
      → add sha64 claim_hash answers e a ≡ ok b
      → IsConserved b
  unfolding add
  add-IsConserved (alive, (still, takes)) e a b c h =
      let k : (count_event sha64 claim_hash e a
            >>= (λ next. if batch_full next then flush still takes next else ok next))
          ≡ ok b =
        ground arith in
      let (next, counted, last) = >>=-eq-ok (count_event sha64 claim_hash e a) _ k in
      let kept = count_event-IsConserved e a next c counted in
      elim (Bool-cases (batch_full next)) [
        | inl full ↦ flush-IsConserved still takes next b kept (rw full at last)
        | inr room ↦ let same : next ≡ b = ground arith in rw (sym same) kept
      ]

  add_all-IsConserved :
      (events : List ((Bool × (Bool × Bool)) × Event)) (a b : Aggregator)
      → IsConserved a
      → add_all sha64 claim_hash events a ≡ ok b
      → IsConserved b
  unfolding add_all
  add_all-IsConserved [] a b c h = let same : a ≡ b = ground arith in rw (sym same) c
  add_all-IsConserved ((answers, e) ∷ rest) a b c h =
      let (next, counted, last) = >>=-eq-ok (add sha64 claim_hash answers e a) _ h in
      add_all-IsConserved rest next b (add-IsConserved answers e a next c counted) last

-- A flush that ends well leaves no cell behind.
flush_empties :
    (alive takes : Bool) (a b : Aggregator) → flush alive takes a ≡ ok b → pending b.cells ≡ 0
unfolding flush batch_empty
flush_empties alive takes a b h =
    let sum = requests-batch_of a in
    let none_left = requests_none (batch_of a).cells in
    elim (Bool-cases (batch_empty (batch_of a))) [
      | inl empty ↦
          let cells : length (batch_of a).cells ≡ 0 = ground arith in
          let zero_sum = none_left cells in
          let same : b.cells ≡ a.cells = ground arith in
          omega (arith, ap pending same, sum, zero_sum)
      | inr full ↦ let gone : b.cells ≡ [] = ground arith in ap pending gone
    ]

finish-IsDelivered :
    (alive takes : Bool) (a : Aggregator) → IsConserved a → IsDelivered (finish alive takes a)
unfolding finish
finish-IsDelivered alive takes a c = split (finish alive takes a) refl
  where
    split : (r : Counted (Summary × Aggregator)) → finish alive takes a ≡ r → IsDelivered r
    split (err e) h = tt
    split (ok (s, b)) h =
        let g : flush alive takes (record a { finished = true }) ≡ ok b = ground arith in
        let same : s ≡ b.summary = ground arith in
        let kept = flush-IsConserved alive takes (record a { finished = true }) b c g in
        let none_left = flush_empties alive takes (record a { finished = true }) b g in
        let accepted = ap (λ (x : Summary). x.accepted) same in
        omega (arith, kept, none_left, accepted)

-- However the context and the sink answer: if all the events are added and the aggregator finishes
-- without an error, the requests in the cells of all the batches that the sink took are as many as
-- the events that the summary counts as accepted.
pub run-IsDelivered :
    (sha64 : Bytes → ℕ) (claim_hash : Bytes → Bytes) (limits : Limits)
    (events : List ((Bool × (Bool × Bool)) × Event)) (alive takes : Bool)
    → IsDelivered (run sha64 claim_hash limits events alive takes)
unfolding new_aggregator
run-IsDelivered sha64 claim_hash limits events alive takes =
    split (add_all sha64 claim_hash events (new_aggregator limits)) refl
  where
    split :
        (r : Counted Aggregator)
        → add_all sha64 claim_hash events (new_aggregator limits) ≡ r
        → IsDelivered (r >>= (λ a. finish alive takes a))
    split (err e) h = tt
    split (ok a) h =
        finish-IsDelivered alive takes a
          (add_all-IsConserved sha64 claim_hash events (new_aggregator limits) a refl h)
