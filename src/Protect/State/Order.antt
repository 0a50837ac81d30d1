-- ===== src/Protect/State/Order.antt =====
-- The order of the rules of a valid state, and the payload projected from it.
use crawlledger.Domain.Text.{valid_method, valid_actionable, site_matches}
use crawlledger.Protect.State.{
  Rule, ApplyRule, State, StateError, ApplyPayload, rule_less, validate_rule, validate_rules,
  validate_state, project_rule, project_rules, validate_apply_rules, validate_payload,
  project_state, rules_order, max_protection_rules, less_than, apply_less,
}
use crawlledger.Base.{
  suc, ◌≤◌, ◌≡◌, refl, ap, inl, inr, true, false, not, Option, none, some, List, [], ◌∷◌, arith,
  if◌then◌else◌, Bool-cases, Result, ok, err, >>=-eq-ok, length, Bytes, bytes_lt, bytes_eq_iff,
  bytes_lt_irrefl, bytes_lt_trans,
}

validate_rule-names :
    (r : Rule)
    → validate_rule r ≡ ok tt
    → (valid_method r.method ≡ true) × (valid_actionable r.path_prefix ≡ true)
unfolding validate_rule
validate_rule-names r h = elim (Bool-cases (valid_method r.method)) [
  | inr m ↦ cc (rw m at h)
  | inl m ↦ elim (Bool-cases (valid_actionable r.path_prefix)) [
    | inr p ↦ cc (rw (m, p) at h)
    | inl p ↦ (m, p)
  ]
]

bytes_lt_asymm : (a b : Bytes) → bytes_lt a b ≡ true → bytes_lt b a ≡ false
bytes_lt_asymm a b h = elim (Bool-cases (bytes_lt b a)) [
  | inl k ↦ cc (bytes_lt_trans a b a h k, bytes_lt_irrefl a)
  | inr k ↦ k
]

-- The order of the rules is the order that the payload is checked by.
apply_less-project :
    (p r : Rule) → rule_less p r ≡ true → apply_less (some (project_rule p)) (project_rule r) ≡ true
unfolding rule_less apply_less project_rule
apply_less-project p r h = ground (
  arith,
  bytes_lt_asymm p.method r.method,
  bytes_lt_irrefl r.method,
  bytes_eq_iff p.method r.method,
)

previous_projected : Option Rule → Option ApplyRule
previous_projected none = none
previous_projected (some p) = some (project_rule p)

less_than-project :
    (o : Option Rule) (r : Rule)
    → less_than o r ≡ true
    → apply_less (previous_projected o) (project_rule r) ≡ true
unfolding less_than previous_projected apply_less
less_than-project none r h = refl
less_than-project (some p) r h = apply_less-project p r h

validate_rules-project :
    (o : Option Rule) (rs : List Rule)
    → validate_rules o rs ≡ ok tt
    → validate_apply_rules (previous_projected o) (project_rules rs) ≡ true
unfolding validate_rules validate_apply_rules project_rules previous_projected
validate_rules-project o [] h = refl
validate_rules-project o (r ∷ rs) h =
    let order : Result StateError (Unit {0}) → Result StateError (Unit {0}) =
      λ later. if not (less_than o r) then err rules_order else later in
    let (_, checked, ordered) =
      >>=-eq-ok (validate_rule r) (λ _. order (validate_rules (some r) rs)) h in
    let (m, p) = validate_rule-names r checked in
    elim (Bool-cases (less_than o r)) [
      | inl less ↦
          rw (m, p, less_than-project o r less)
            (validate_rules-project (some r) rs (rw less at ordered))
      | inr not_less ↦ cc (rw not_less at ordered)
    ]

abbrev Parts : State → Type 0
Parts s =
    (site_matches s.site ≡ true)
    × (length s.rules ≤ max_protection_rules)
    × (validate_rules none s.rules ≡ ok tt)

validate_state-Parts : (s : State) → validate_state s ≡ ok tt → Parts s
unfolding validate_state
validate_state-Parts s h = ground arith

length-project_rules : (rs : List Rule) → length (project_rules rs) ≡ length rs
unfolding project_rules
length-project_rules [] = refl
length-project_rules (r ∷ rs) = ap suc (length-project_rules rs)

-- What is projected from a state that passes its validation passes the validation of the payload:
-- the privileged child refuses no order, name or number of rules that its parent accepts.
pub project_state-validate_payload :
    (s : State) (p : ApplyPayload) → project_state s ≡ ok p → validate_payload p ≡ true
unfolding project_state validate_payload previous_projected
project_state-validate_payload s p h =
    let project : ApplyPayload = record {
      schema_version = 1;
      site = s.site;
      rules = project_rules s.rules;
    } in
    let (_, valid, e) = >>=-eq-ok (validate_state s) (λ _. ok project) h in
    let (site, fits, rules) = validate_state-Parts s valid in
    ground (arith, length-project_rules s.rules, validate_rules-project none s.rules rules)
