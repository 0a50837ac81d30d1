-- ===== src/Policy/Validate/Kinds.antt =====
-- policy/validate.go: every action of an accepted policy is one of the four.
use crawlledger.Policy.Validate.{
  validate_policy_rules, validate_policy_rule, validate_action_kind, Catalog, Seen, validate, see,
}
use crawlledger.Policy.Model.{valid_kind, Policy, PolicyRule}
use crawlledger.Policy.Validate.Accepted.{validate-rules}
use crawlledger.Base.{◌≡◌, true, List, [], ◌∷◌, arith, ok, >>=-eq-ok, All, nat_key, bytes_key}

validate_action_kind-valid_kind :
    (r : PolicyRule) → validate_action_kind r ≡ ok tt → valid_kind r.action.kind ≡ true
unfolding validate_action_kind valid_kind
validate_action_kind-valid_kind r h = ground arith

validate_policy_rule-valid_kind :
    (catalog : Catalog) (seen : Seen) (r : PolicyRule)
    → validate_policy_rule catalog seen r ≡ ok tt
    → valid_kind r.action.kind ≡ true
unfolding validate_policy_rule
validate_policy_rule-valid_kind catalog seen r h =
    let k : validate_action_kind r ≡ ok tt = ground arith in validate_action_kind-valid_kind r k

validate_policy_rules-valid_kind :
    (catalog : Catalog) (seen : Seen) (rules : List PolicyRule)
    → validate_policy_rules catalog seen rules ≡ ok tt
    → All (λ (r : PolicyRule). valid_kind r.action.kind ≡ true) rules
unfolding validate_policy_rules
validate_policy_rules-valid_kind catalog seen [] h = tt
validate_policy_rules-valid_kind catalog seen (r ∷ rs) h =
    let (u, first, rest) = >>=-eq-ok (validate_policy_rule catalog seen r) _ h in
    (
      validate_policy_rule-valid_kind catalog seen r first,
      validate_policy_rules-valid_kind catalog (see catalog seen r) rs rest,
    )

pub validate-valid_kind :
    (p : Policy) (catalog : Catalog)
    → validate p catalog ≡ ok tt
    → All (λ (r : PolicyRule). valid_kind r.action.kind ≡ true) p.rules
validate-valid_kind p catalog h =
    validate_policy_rules-valid_kind catalog _ p.rules (validate-rules p catalog h)
