-- ===== src/Policy/Simulate/Conserved.antt =====
-- policy/simulate.go: the account of the requests through the whole simulation.
use crawlledger.Policy.Simulate.Cells.{add, actionable, add_rules}
use crawlledger.Policy.Simulate.{
  flush_row, enter_route, flush_route, Simulator, RuleRow, new_simulator, new_row, checked_add,
  Shared, flush_rows, is_other, TrafficCell,
}
use crawlledger.Policy.Model.{Policy, PolicyRule, valid_kind}
use crawlledger.Policy.Simulate.Sums.{settled}
use crawlledger.Policy.Simulate.Rows.{IsRow, matched_sum, modeled_sum, Moves, add_rules-Moves}
use crawlledger.Base.{
  ℕ, ◌+◌, ◌≤◌, ◌≡◌, refl, inl, inr, true, false, ◌||◌, Option, none, some, List, [], ◌∷◌, map,
  arith, if◌then◌else◌, Bool-cases, ok, >>=-eq-ok, guard_ok, All, ℤ, pos, negsuc, pos_part,
  is_negative, max_int64, Bytes, nat_key, bytes_key,
}

-- Every request is settled, or matched by a rate limit and not yet settled by the rate model.
pub record IsBalanced (s : Shared) (account : List RuleRow) : Type 0 where
  pub rows : All IsRow account
  pub balance : settled s + matched_sum account ≡ s.totals.observed_requests + modeled_sum account
  pub bound : s.totals.observed_requests ≤ max_int64

-- A change of the rows that touches neither the rule nor the sums.
abbrev pub IsQuiet : (RuleRow → RuleRow) → Type 0
IsQuiet f =
    (row : RuleRow)
    → ((f row).rule ≡ row.rule)
      × ((f row).rate_matched ≡ row.rate_matched)
      × ((f row).modeled ≡ row.modeled)

quiet_rows :
    (f : RuleRow → RuleRow) (rows : List RuleRow)
    → IsQuiet f
    → All IsRow rows
    → All IsRow (map f rows)
quiet_rows f [] q i = tt
quiet_rows f (row ∷ rows) q i =
    let (rule, matched, modeled) = q row in
    let first = i.0 in
    (
      record {
        kind = rw rule first.kind;
        unlimited =
            λ u. let (a, b) = first.unlimited (rw rule at u) in (cc (a, matched), cc (b, modeled));
      },
      quiet_rows f rows q i.1,
    )

quiet_sums :
    (f : RuleRow → RuleRow) (rows : List RuleRow)
    → IsQuiet f
    → (matched_sum (map f rows) ≡ matched_sum rows) × (modeled_sum (map f rows) ≡ modeled_sum rows)
quiet_sums f [] q = (refl, refl)
quiet_sums f (row ∷ rows) q =
    let (rule, matched, modeled) = q row in
    let (a, b) = quiet_sums f rows q in (omega (arith, matched, a), omega (arith, modeled, b))

pub quiet-IsBalanced :
    (s : Shared) (rows : List RuleRow) (f : RuleRow → RuleRow)
    → IsQuiet f
    → IsBalanced s rows
    → IsBalanced s (map f rows)
quiet-IsBalanced s rows f q b =
    let (a, m) = quiet_sums f rows q in
    let balance = b.balance in
    record {
      rows = quiet_rows f rows q b.rows;
      balance = omega (arith, a, m, balance);
      bound = b.bound;
    }

flush_row-IsQuiet : (route : Bytes) → IsQuiet (flush_row route)
unfolding flush_row
flush_row-IsQuiet route row = (ground arith, ground arith, ground arith)

pub flush_rows-IsBalanced :
    (s : Shared) (route : Option Bytes) (rows : List RuleRow)
    → IsBalanced s rows
    → IsBalanced s (flush_rows route rows)
unfolding flush_rows
flush_rows-IsBalanced s none rows b = b
flush_rows-IsBalanced s (some route) rows b =
    quiet-IsBalanced s rows (flush_row route) (flush_row-IsQuiet route) b

enter_route-IsBalanced :
    (s : Simulator) (route : Bytes)
    → IsBalanced s.shared s.rows
    → IsBalanced s.shared (enter_route s route).rows
unfolding enter_route flush_route
enter_route-IsBalanced s route b = elim (Bool-cases (is_other s.current_route route)) [
  | inl other ↦ rw other (flush_rows-IsBalanced s.shared s.current_route s.rows b)
  | inr same ↦ rw same b
]

new_rows-IsRow :
    (rules : List PolicyRule)
    → All (λ (r : PolicyRule). valid_kind r.action.kind ≡ true) rules
    → All IsRow (map new_row rules)
new_rows-IsRow [] v = tt
new_rows-IsRow (r ∷ rs) v =
    (record { kind = v.0; unlimited = λ u. (refl, refl) }, new_rows-IsRow rs v.1)

new_rows-sums :
    (rules : List PolicyRule)
    → (matched_sum (map new_row rules) ≡ 0) × (modeled_sum (map new_row rules) ≡ 0)
new_rows-sums [] = (refl, refl)
new_rows-sums (r ∷ rs) = let (a, b) = new_rows-sums rs in (omega (arith, a), omega (arith, b))

pub new_simulator-IsBalanced :
    (p : Policy) (analysis_id policy_hash : Bytes)
    → All (λ (r : PolicyRule). valid_kind r.action.kind ≡ true) p.rules
    → IsBalanced
        (new_simulator p analysis_id policy_hash).shared
        (new_simulator p analysis_id policy_hash).rows
unfolding new_simulator
new_simulator-IsBalanced p analysis_id policy_hash v =
    let (a, b) = new_rows-sums p.rules in
    record { rows = new_rows-IsRow p.rules v; balance = omega (arith, a, b); bound = omega arith }

-- A step on the rows keeps the account, if the requests that it accounts for are observed.
pub Moves-IsBalanced :
    (n : ℕ) (s : Shared) (rows : List RuleRow) (t : Shared) (s' : Shared) (rows' : List RuleRow)
    → IsBalanced s rows
    → settled t ≡ settled s
    → t.totals.observed_requests ≡ s.totals.observed_requests + n
    → t.totals.observed_requests ≤ max_int64
    → Moves n t rows s' rows'
    → IsBalanced s' rows'
Moves-IsBalanced n s rows t s' rows' b e o l m =
    let before = b.balance in
    let after = m.balance in
    let observed = m.observed in
    record {
      rows = m.keeps b.rows;
      balance = omega (arith, before, after, observed, e, o);
      bound = omega (arith, observed, l);
    }

checked_add_bound :
    (left n sum : ℕ)
    → n ≤ max_int64
    → checked_add left (pos n) ≡ ok sum
    → (sum ≡ left + n) × (sum ≤ max_int64)
unfolding checked_add
checked_add_bound left n sum b h = ground arith

non_negative : (z : ℤ) → is_negative z ≡ false → z ≡ pos (pos_part z)
non_negative (pos n) h = refl
non_negative (negsuc n) h = cc h

-- A cell that an int64 can count, added with success, keeps the account.
pub add-IsBalanced :
    (s : Simulator) (cell : TrafficCell) (s' : Simulator)
    → IsBalanced s.shared s.rows
    → pos_part cell.requests ≤ max_int64
    → add s cell ≡ ok s'
    → IsBalanced s'.shared s'.rows
unfolding add
add-IsBalanced s cell s' b l h =
    let positive : is_negative cell.requests ≡ false = ground arith in
    let n = pos_part cell.requests in
    let e : cell.requests ≡ pos n = non_negative cell.requests positive in
    let (bad, h1) = guard_ok (is_negative cell.requests || is_negative cell.bytes_sent) _ _ h in
    let (observed, o, h2) =
      >>=-eq-ok (checked_add s.shared.totals.observed_requests cell.requests) _ h1 in
    let (sum, bound) =
      checked_add_bound s.shared.totals.observed_requests n observed l (rw e at o) in
    let (actionable, a, h3) =
      >>=-eq-ok
        (if actionable s.path_policy cell.actionable_prefix
          then checked_add s.shared.path_actionable cell.requests
          else ok s.shared.path_actionable)
        _ h2 in
    let t : Shared = record s.shared {
      totals = record s.shared.totals { observed_requests = observed };
      path_actionable = actionable;
    } in
    let entered = enter_route s cell.route in
    let ((shared, rows), m, h4) = >>=-eq-ok (add_rules t entered.rows cell) _ h3 in
    let i = enter_route-IsBalanced s cell.route b in
    let moves = add_rules-Moves n t entered.rows cell shared rows e i.rows m in
    let kept : IsBalanced shared rows =
      Moves-IsBalanced n s.shared entered.rows t shared rows i refl sum bound moves in
    let same_shared : s'.shared ≡ shared = ground arith in
    let same_rows : s'.rows ≡ rows = ground arith in rw (same_shared, same_rows) kept
