-- ===== src/Policy/Simulate/Rows.antt =====
-- policy/simulate.go: what the steps add over all the rows.
use crawlledger.Policy.Matcher.{matches}
use crawlledger.Policy.Model.{valid_kind}
use crawlledger.Policy.Simulate.{RuleRow, Shared, TrafficCell, is_rate_limit, matches}
use crawlledger.Policy.Simulate.Cells.{add_rules, note_ambiguous, policy_cell, add_matched}
use crawlledger.Policy.Simulate.Sums.{settled, Counts, checked_add-cases, add_matched-Counts}
use crawlledger.Base.{
  ℕ, ◌+◌, ◌≡◌, inl, inr, true, false, List, [], ◌∷◌, arith, Bool-cases, ok, >>=-eq-ok, All, pos,
  nat_key, bytes_key,
}

-- The action of a rule is one of the four, and only a rate limit counts for the rate model.
pub record IsRow (row : RuleRow) : Type 0 where
  pub kind : valid_kind row.rule.action.kind ≡ true
  pub unlimited :
      is_rate_limit row.rule.action.kind ≡ false → (row.rate_matched ≡ 0) × (row.modeled ≡ 0)

abbrev pub matched_sum : List RuleRow → ℕ
matched_sum [] = 0
matched_sum (row ∷ rows) = row.rate_matched + matched_sum rows

abbrev pub modeled_sum : List RuleRow → ℕ
modeled_sum [] = 0
modeled_sum (row ∷ rows) = row.modeled + modeled_sum rows

-- A step that accounts for `n` more requests; what the rate model settles was matched before.
pub record RowMoves (n : ℕ) (s : Shared) (row : RuleRow) (s' : Shared) (row' : RuleRow)
    : Type 0 where
  pub observed : s'.totals.observed_requests ≡ s.totals.observed_requests
  pub balance :
      settled s' + row'.rate_matched + row.modeled ≡ settled s + row.rate_matched + row'.modeled + n
  pub keeps : IsRow row → IsRow row'

pub record Moves (n : ℕ) (s : Shared) (rows : List RuleRow) (s' : Shared) (rows' : List RuleRow)
    : Type 0 where
  pub observed : s'.totals.observed_requests ≡ s.totals.observed_requests
  pub balance :
      settled s' + matched_sum rows' + modeled_sum rows
      ≡ settled s + matched_sum rows + modeled_sum rows' + n
  pub keeps : All IsRow rows → All IsRow rows'

Counts-RowMoves :
    (n : ℕ) (s : Shared) (row : RuleRow) (s' : Shared) (row' : RuleRow)
    → Counts n s row s' row'
    → RowMoves n s row s' row'
Counts-RowMoves n s row s' row' c =
    let b = c.balance in
    let m = c.modeled in
    record {
      observed = c.observed;
      balance = omega (arith, b, m);
      keeps = λ i. record {
        kind = rw (c.rule) i.kind;
        unlimited = λ u.
            let k = rw c.rule at u in
            let (r, q) = i.unlimited k in let same = c.unlimited k in (cc (r, same), cc (q, m));
      };
    }

-- A step on the first row, and one behind it.
pub Moves-first :
    (n : ℕ) (s : Shared) (row : RuleRow) (rows : List RuleRow) (s' : Shared) (row' : RuleRow)
    → RowMoves n s row s' row'
    → Moves n s (row ∷ rows) s' (row' ∷ rows)
Moves-first n s row rows s' row' m =
    let b = m.balance in
    record {
      observed = m.observed;
      balance = omega (arith, b);
      keeps = λ (i, rest). (m.keeps i, rest);
    }

pub Moves-later :
    (n : ℕ) (s : Shared) (row : RuleRow) (rows : List RuleRow) (s' : Shared) (rows' : List RuleRow)
    → Moves n s rows s' rows'
    → Moves n s (row ∷ rows) s' (row ∷ rows')
Moves-later n s row rows s' rows' m =
    let b = m.balance in
    record {
      observed = m.observed;
      balance = omega (arith, b);
      keeps = λ (i, rest). (i, m.keeps rest);
    }

note_ambiguous_keeps :
    (s : Shared) (row : RuleRow) (cell : TrafficCell)
    → (note_ambiguous s row cell).totals ≡ s.totals
unfolding note_ambiguous
note_ambiguous_keeps s row cell = ground arith

-- Only the totals of the shared part enter the balance.
Moves-totals :
    (n : ℕ) (s t : Shared) (rows : List RuleRow) (s' : Shared) (rows' : List RuleRow)
    → t.totals ≡ s.totals
    → Moves n t rows s' rows'
    → Moves n s rows s' rows'
Moves-totals n s t rows s' rows' e m = record {
  observed = rw e at m.observed;
  balance = rw e at m.balance;
  keeps = m.keeps;
}

pub add_rules-Moves :
    (n : ℕ) (s : Shared) (rows : List RuleRow) (cell : TrafficCell) (s' : Shared)
    (rows' : List RuleRow)
    → cell.requests ≡ pos n
    → All IsRow rows
    → add_rules s rows cell ≡ ok (s', rows')
    → Moves n s rows s' rows'
unfolding add_rules
add_rules-Moves n s [] cell s' rows' e i h =
    let a = checked_add-cases s.totals.allowed_requests n in
    let none_left : rows' ≡ [] = ground arith in
    rw none_left (record { observed = ground arith; balance = ground arith; keeps = λ u. tt })
add_rules-Moves n s (row ∷ rows) cell s' rows' e i h =
    let noted = note_ambiguous s row cell in
    elim (Bool-cases (matches row.rule.match_ (policy_cell cell))) [
      | inl here ↦
          let ((t, row'), m, l) = >>=-eq-ok (add_matched noted row cell) _ (rw here at h) in
          let c = add_matched-Counts noted row cell n t row' e (i.0).kind m in
          let same : s' ≡ t = ground arith in
          let tail : rows' ≡ row' ∷ rows = ground arith in
          Moves-totals n s noted (row ∷ rows) s' rows' (note_ambiguous_keeps s row cell) (
            rw (same, tail)
              (Moves-first n noted row rows t row' (Counts-RowMoves n noted row t row' c)))
      | inr later ↦
          let ((t, rest), m, l) = >>=-eq-ok (add_rules noted rows cell) _ (rw later at h) in
          let c = add_rules-Moves n noted rows cell t rest e i.1 m in
          let same : s' ≡ t = ground arith in
          let tail : rows' ≡ row ∷ rest = ground arith in
          Moves-totals n s noted (row ∷ rows) s' rows' (note_ambiguous_keeps s row cell)
            (rw (same, tail) (Moves-later n noted row rows t rest c))
    ]
