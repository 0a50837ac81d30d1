-- ===== src/Policy/Simulate/Sums.antt =====
-- policy/simulate.go: what one step adds to the counters.
use crawlledger.Policy.Model.{
  valid_kind, ActionKind, action_other, action_allow, action_cache, action_deny, action_rate_limit,
}
use crawlledger.Policy.Simulate.{
  integer_overflow, TrafficCell, RuleRow, Shared, checked_add, is_rate_limit,
}
use crawlledger.Policy.Simulate.Cells.{
  allow_cell, deny_cell, rate_limit_cell, cache_cell, note_crawler, act, note_protected,
  add_matched, act_as,
}
use crawlledger.Base.{
  ℕ, ◌+◌, ◌≤◌, ◌<◌, ◌≡◌, refl, ◌⊎◌, true, false, arith, ok, err, >>=-eq-ok, pos, max_int64, nat_key,
  bytes_key,
}

pub checked_add-cases :
    (left n : ℕ)
    → (checked_add left (pos n) ≡ err integer_overflow)
      ⊎ ((checked_add left (pos n) ≡ ok (left + n))
          × (left + n ≤ max_int64 ⊎ n ≡ 0 ⊎ max_int64 < n))
unfolding checked_add
checked_add-cases left n = ground arith

-- The requests that have been allowed, denied or limited.
abbrev pub settled : Shared → ℕ
settled s = s.totals.allowed_requests + s.totals.denied_requests + s.totals.rate_limited_requests

-- What a step keeps, and that the requests that it counts are all accounted for.
pub record Counts (n : ℕ) (s : Shared) (row : RuleRow) (s' : Shared) (row' : RuleRow) : Type 0 where
  pub observed : s'.totals.observed_requests ≡ s.totals.observed_requests
  pub balance : settled s' + row'.rate_matched ≡ settled s + row.rate_matched + n
  pub modeled : row'.modeled ≡ row.modeled
  pub rule : row'.rule ≡ row.rule
  pub unlimited : is_rate_limit row.rule.action.kind ≡ false → row'.rate_matched ≡ row.rate_matched

allow_cell-Counts :
    (s : Shared) (row : RuleRow) (cell : TrafficCell) (n : ℕ) (s' : Shared) (row' : RuleRow)
    → cell.requests ≡ pos n
    → row.rule.action.kind ≡ action_allow
    → allow_cell s row cell ≡ ok (s', row')
    → Counts n s row s' row'
unfolding allow_cell is_rate_limit
allow_cell-Counts s row cell n s' row' e k h =
    let a = checked_add-cases row.impact.allowed n in
    let b = checked_add-cases s.totals.allowed_requests n in
    record {
      observed = ground arith;
      balance = ground arith;
      modeled = ground arith;
      rule = ground arith;
      unlimited = λ u. ground arith;
    }

rate_limit_cell-Counts :
    (s : Shared) (row : RuleRow) (cell : TrafficCell) (n : ℕ) (s' : Shared) (row' : RuleRow)
    → cell.requests ≡ pos n
    → row.rule.action.kind ≡ action_rate_limit
    → rate_limit_cell s row cell ≡ ok (s', row')
    → Counts n s row s' row'
unfolding rate_limit_cell is_rate_limit
rate_limit_cell-Counts s row cell n s' row' e k h =
    let a = checked_add-cases row.rate_matched n in
    record {
      observed = ground arith;
      balance = ground arith;
      modeled = ground arith;
      rule = ground arith;
      unlimited = λ u. ground arith;
    }

cache_cell-Counts :
    (s : Shared) (row : RuleRow) (cell : TrafficCell) (n : ℕ) (s' : Shared) (row' : RuleRow)
    → cell.requests ≡ pos n
    → row.rule.action.kind ≡ action_cache
    → cache_cell s row cell ≡ ok (s', row')
    → Counts n s row s' row'
unfolding cache_cell is_rate_limit
cache_cell-Counts s row cell n s' row' e k h =
    let a = checked_add-cases row.impact.allowed n in
    let b = checked_add-cases s.totals.allowed_requests n in
    record {
      observed = ground arith;
      balance = ground arith;
      modeled = ground arith;
      rule = ground arith;
      unlimited = λ u. ground arith;
    }

deny_cell-Counts :
    (s : Shared) (row : RuleRow) (cell : TrafficCell) (n : ℕ) (s' : Shared) (row' : RuleRow)
    → cell.requests ≡ pos n
    → row.rule.action.kind ≡ action_deny
    → deny_cell s row cell ≡ ok (s', row')
    → Counts n s row s' row'
unfolding deny_cell is_rate_limit
deny_cell-Counts s row cell n s' row' e k h =
    let a = checked_add-cases s.totals.denied_requests n in
    record {
      observed = ground arith;
      balance = ground arith;
      modeled = ground arith;
      rule = ground arith;
      unlimited = λ u. ground arith;
    }

act-Counts :
    (s : Shared) (row : RuleRow) (cell : TrafficCell) (n : ℕ) (s' : Shared) (row' : RuleRow)
    → cell.requests ≡ pos n
    → valid_kind row.rule.action.kind ≡ true
    → act s row cell ≡ ok (s', row')
    → Counts n s row s' row'
unfolding act_as valid_kind
act-Counts s row cell n s' row' e v h = split row.rule.action.kind refl v h
  where
    split :
        (kind : ActionKind)
        → row.rule.action.kind ≡ kind
        → valid_kind kind ≡ true
        → act_as kind s row cell ≡ ok (s', row')
        → Counts n s row s' row'
    split action_allow k w g = allow_cell-Counts s row cell n s' row' e k g
    split action_deny k w g = deny_cell-Counts s row cell n s' row' e k g
    split action_rate_limit k w g = rate_limit_cell-Counts s row cell n s' row' e k g
    split action_cache k w g = cache_cell-Counts s row cell n s' row' e k g
    split (action_other name) k w g = cc w

note_crawler_keeps :
    (row : RuleRow) (cell : TrafficCell)
    → ((note_crawler row cell).rule ≡ row.rule)
      × ((note_crawler row cell).rate_matched ≡ row.rate_matched)
      × ((note_crawler row cell).modeled ≡ row.modeled)
unfolding note_crawler
note_crawler_keeps row cell = (ground arith, ground arith, ground arith)

note_protected_keeps :
    (s : Shared) (row : RuleRow) (cell : TrafficCell)
    → (note_protected s row cell).totals ≡ s.totals
unfolding note_protected
note_protected_keeps s row cell = ground arith

pub add_matched-Counts :
    (s : Shared) (row : RuleRow) (cell : TrafficCell) (n : ℕ) (s' : Shared) (row' : RuleRow)
    → cell.requests ≡ pos n
    → valid_kind row.rule.action.kind ≡ true
    → add_matched s row cell ≡ ok (s', row')
    → Counts n s row s' row'
unfolding add_matched
add_matched-Counts s row cell n s' row' e v h =
    let (matched, m, h1) = >>=-eq-ok (checked_add row.impact.matched_requests cell.requests) _ h in
    let (routed, r, h2) = >>=-eq-ok (checked_add row.current_route_row cell.requests) _ h1 in
    let (rule, limit, modeled) = note_crawler_keeps row cell in
    let totals = note_protected_keeps s row cell in
    let c =
      act-Counts _
        (record (note_crawler row cell) {
          impact = record row.impact { matched_requests = matched };
          current_route_row = routed;
        })
        cell n s' row' e (rw rule v) h2 in
    let o = c.observed in
    let b = c.balance in
    let m = c.modeled in
    let r = c.rule in
    let u = c.unlimited in
    record {
      observed = rw totals at o;
      balance = ground arith;
      modeled = ground arith;
      rule = ground arith;
      unlimited = λ k. ground (arith, u (rw rule k));
    }
