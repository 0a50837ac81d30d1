-- ===== src/Policy/Simulate/Outcome.antt =====
-- policy/simulate.go: the account when the simulation is finished, and the check of app/simulate.go.
use crawlledger.Policy.Simulate.Blocked.{uncovered}
use crawlledger.Policy.Simulate.{RuleRow, Shared, is_rate_limit, flush_route, Simulator, flush_rows}
use crawlledger.Policy.Simulate.Finish.{
  RateProfileImpact, rate_matches, close, close_row, settle, close_totals, add_rate, settle_rate,
}
use crawlledger.Policy.Simulate.Sums.{checked_add-cases}
use crawlledger.Policy.Simulate.Rows.{
  IsRow, matched_sum, modeled_sum, RowMoves, Moves, Moves-first, Moves-later,
}
use crawlledger.Policy.Simulate.Conserved.{
  IsBalanced, IsQuiet, Moves-IsBalanced, flush_rows-IsBalanced, quiet-IsBalanced,
}
use crawlledger.Base.{
  ℕ, ◌+◌, ◌≤◌, ◌≡◌, refl, inl, inr, true, false, List, [], ◌∷◌, map, arith, ◌==◌, Bool-cases, ok,
  >>=-eq-ok, any, All, pos, nat_key, bytes_key,
}

-- A row of the rate model: every request that it models is allowed or limited.
pub record IsRate (rate : RateProfileImpact) : Type 0 where
  pub allowed : ℕ
  pub limited : ℕ
  pub allowed_requests : rate.allowed_requests ≡ pos allowed
  pub limited_requests : rate.limited_requests ≡ pos limited
  pub modeled_requests : rate.modeled_requests ≡ pos (allowed + limited)

-- A rate limit models at most what it matched.
abbrev pub IsCovered : RuleRow → Type 0
IsCovered row = row.modeled ≤ row.rate_matched

add_rate-RowMoves :
    (s : Shared) (row : RuleRow) (rate : RateProfileImpact) (s' : Shared) (row' : RuleRow)
    → IsRate rate
    → is_rate_limit row.rule.action.kind ≡ true
    → add_rate s row rate ≡ ok (s', row')
    → RowMoves 0 s row s' row'
unfolding add_rate
add_rate-RowMoves s row rate s' row' r l h =
    let ea = r.allowed_requests in
    let el = r.limited_requests in
    let em = r.modeled_requests in
    let a = checked_add-cases s.totals.allowed_requests r.allowed in
    let b = checked_add-cases s.totals.rate_limited_requests r.limited in
    let m = checked_add-cases row.modeled (r.allowed + r.limited) in
    let rule : row'.rule ≡ row.rule = ground arith in
    record {
      observed = ground arith;
      balance = ground arith;
      keeps = λ i. record { kind = rw rule i.kind; unlimited = λ u. cc (rw rule at u, l) };
    }

rate_matches_limit :
    (row : RuleRow) (rate : RateProfileImpact)
    → rate_matches row rate ≡ true
    → is_rate_limit row.rule.action.kind ≡ true
unfolding rate_matches
rate_matches_limit row rate h = ground arith

settle_rate-Moves :
    (s : Shared) (rows : List RuleRow) (rate : RateProfileImpact) (s' : Shared)
    (rows' : List RuleRow)
    → IsRate rate
    → settle_rate s rows rate ≡ ok (s', rows')
    → Moves 0 s rows s' rows'
unfolding settle_rate
settle_rate-Moves s [] rate s' rows' r h =
    let same : s' ≡ s = ground arith in
    let none_left : rows' ≡ [] = ground arith in
    rw (same, none_left) (record { observed = refl; balance = omega arith; keeps = λ u. tt })
settle_rate-Moves s (row ∷ rows) rate s' rows' r h = elim (Bool-cases (rate_matches row rate)) [
  | inl here ↦
      let ((t, row'), m, l) = >>=-eq-ok (add_rate s row rate) _ (rw here at h) in
      let c = add_rate-RowMoves s row rate t row' r (rate_matches_limit row rate here) m in
      let same : s' ≡ t = ground arith in
      let tail : rows' ≡ row' ∷ rows = ground arith in
      rw (same, tail) (Moves-first 0 s row rows t row' c)
  | inr later ↦
      let ((t, rest), m, l) = >>=-eq-ok (settle_rate s rows rate) _ (rw later at h) in
      let c = settle_rate-Moves s rows rate t rest r m in
      let same : s' ≡ t = ground arith in
      let tail : rows' ≡ row ∷ rest = ground arith in
      rw (same, tail) (Moves-later 0 s row rows t rest c)
]

settle-IsBalanced :
    (s : Shared) (rows : List RuleRow) (rates : List RateProfileImpact) (s' : Shared)
    (rows' : List RuleRow)
    → All IsRate rates
    → IsBalanced s rows
    → settle s rows rates ≡ ok (s', rows')
    → IsBalanced s' rows'
unfolding settle
settle-IsBalanced s rows [] s' rows' r b h =
    let same : s' ≡ s = ground arith in let tail : rows' ≡ rows = ground arith in rw (same, tail) b
settle-IsBalanced s rows (rate ∷ rates) s' rows' r b h =
    let ((t, next), m, rest) = >>=-eq-ok (settle_rate s rows rate) _ h in
    let moves = settle_rate-Moves s rows rate t next r.0 m in
    let kept = Moves-IsBalanced 0 s rows s t next b refl (omega arith) b.bound moves in
    settle-IsBalanced t next rates s' rows' r.1 kept rest

close_row-IsQuiet : IsQuiet close_row
unfolding close_row
close_row-IsQuiet row = (refl, refl, refl)

close_totals-IsBalanced :
    (s : Shared) (rows : List RuleRow) → IsBalanced s rows → IsBalanced (close_totals s) rows
unfolding close_totals
close_totals-IsBalanced s rows b = elim (Bool-cases (s.total_samples == s.total_avoided)) [
  | inl all_sampled ↦ rw all_sampled b
  | inr some_missing ↦
      rw some_missing (record { rows = b.rows; balance = b.balance; bound = b.bound })
]

pub close-IsBalanced :
    (s : Simulator) (rates : List RateProfileImpact) (closed : Simulator)
    → All IsRate rates
    → IsBalanced s.shared s.rows
    → close s rates ≡ ok closed
    → IsBalanced closed.shared closed.rows
unfolding close flush_route
close-IsBalanced s rates closed r b h =
    let ((shared, rows), m, l) =
      >>=-eq-ok (settle s.shared (flush_rows s.current_route s.rows) rates) _ h in
    let flushed = flush_rows-IsBalanced s.shared s.current_route s.rows b in
    let k =
      settle-IsBalanced s.shared (flush_rows s.current_route s.rows) rates shared rows r flushed
        m in
    let same : closed.shared ≡ close_totals shared = ground arith in
    let tail : closed.rows ≡ map close_row rows = ground arith in
    rw (same, tail)
      (close_totals-IsBalanced shared (map close_row rows)
        (quiet-IsBalanced shared rows close_row close_row-IsQuiet k))

covered_row : (row : RuleRow) → IsRow row → uncovered row ≡ false → row.modeled ≡ row.rate_matched
covered_row row i h = elim (Bool-cases (is_rate_limit row.rule.action.kind)) [
  | inl limit ↦ ground arith
  | inr other ↦ let (a, b) = i.unlimited other in cc (a, b)
]

-- Either every rate limit is covered, or what is settled is only a part of what was observed.
pub covered_sums :
    (rows : List RuleRow)
    → All IsRow rows
    → All IsCovered rows
    → (modeled_sum rows ≤ matched_sum rows)
      × (any uncovered rows ≡ false → modeled_sum rows ≡ matched_sum rows)
covered_sums [] i c = (omega arith, λ h. refl)
covered_sums (row ∷ rows) i c =
    let (below, same) = covered_sums rows i.1 c.1 in
    let first = c.0 in
    (
      omega (arith, first, below),
      λ h.
          let tail = same (ground arith) in
          let head : row.modeled ≡ row.rate_matched = covered_row row i.0 (ground arith) in
          omega (arith, head, tail),
    )
