-- ===== src/Policy/Validate/Accepted.antt =====
-- policy/validate.go: what an accepted policy promises to the matcher and to its reader.
use crawlledger.Catalog.{Catalog}
use crawlledger.Policy.Matcher.{PolicyMatch, PolicyCell, matches}
use crawlledger.Policy.Matcher.Segments.{
  Admits, Covers, match_names-Admits, match_categories-Admits, match_prefixes-Admits,
  match_methods-Admits,
}
use crawlledger.Policy.Model.{
  Policy, PolicyRule, ActionKind, action_rate_limit, action_allow, action_deny, action_cache,
  action_other,
}
use crawlledger.Policy.Validate.{
  valid_array, validate_match, Seen, see, expand, overlaps_earlier, intersects, caddy_name,
  validate_policy_rule, validate_policy_rules, validate,
}
use crawlledger.Policy.Validate.Sorted.{valid_array-IsSorted}
use crawlledger.Base.{
  ℕ, zero, suc, ◌<◌, ◌≡◌, refl, sym, ◌↔◌, ◌⊎◌, inl, inr, true, false, ◌&&◌, some, List, [], ◌∷◌,
  arith, ok, >>=-eq-ok, get_elem?, any, Bytes, bytes_eq, nat_key, bytes_key,
}

-- What a match means, told without the code's own tests: a dimension without values admits all cells;
-- else the name, the category and the method are among the values listed, and the path is covered by
-- one of the prefixes.
pub record Means (m : PolicyMatch) (cell : PolicyCell) : Type 0 where
  pub name : Admits (λ a b. a ≡ b) m.crawler_names cell.claim_name
  pub category : Admits (λ a b. a ≡ b) m.categories cell.claim_category
  pub path : Admits Covers m.path_prefixes cell.actionable_prefix
  pub method : Admits (λ a b. a ≡ b) m.methods (some cell.method)

validate_match-arrays :
    (catalog : Catalog) (m : PolicyMatch)
    → validate_match catalog m ≡ ok tt
    → (valid_array m.crawler_names && valid_array m.path_prefixes && valid_array m.methods) ≡ true
unfolding validate_match
validate_match-arrays catalog m h = ground arith

validate_match-Means :
    (catalog : Catalog) (m : PolicyMatch) (cell : PolicyCell)
    → validate_match catalog m ≡ ok tt
    → (matches m cell ≡ true) ↔ Means m cell
unfolding matches
validate_match-Means catalog m cell h =
    let arrays = validate_match-arrays catalog m h in
    let n =
      match_names-Admits m.crawler_names cell.claim_name
        (valid_array-IsSorted m.crawler_names (ground arith)) in
    let c = match_categories-Admits m.categories cell.claim_category in
    let p = match_prefixes-Admits m.path_prefixes cell.actionable_prefix in
    let d =
      match_methods-Admits m.methods cell.method (valid_array-IsSorted m.methods (ground arith)) in
    (
      λ all. record {
        name = n.0 (ground arith);
        category = c.0 (ground arith);
        path = p.0 (ground arith);
        method = d.0 (ground arith);
      },
      λ k. rw (n.1 k.name, c.1 k.category, p.1 k.path, d.1 k.method) refl,
    )

-- A rule that the loop accepts behind what it has seen.
record Accepted (catalog : Catalog) (seen : Seen) (r : PolicyRule) : Type 0 where
  pub new_id : any (bytes_eq r.id) seen.ids ≡ false
  pub new_caddy : any (bytes_eq (caddy_name r.id)) seen.caddy_names ≡ false
  pub matched : validate_match catalog r.match_ ≡ ok tt
  pub apart : overlaps_earlier r (expand catalog r.match_) seen.expanded ≡ false

validate_policy_rule-Accepted :
    (catalog : Catalog) (seen : Seen) (r : PolicyRule)
    → validate_policy_rule catalog seen r ≡ ok tt
    → Accepted catalog seen r
unfolding validate_policy_rule
validate_policy_rule-Accepted catalog seen r h = record {
  new_id = ground arith;
  new_caddy = ground arith;
  matched = ground arith;
  apart = ground arith;
}

-- Only a rate limit is compared with the earlier rules.
overlaps_known :
    (r : PolicyRule) (names : List Bytes)
    → ((earlier : List (List Bytes))
        → overlaps_earlier r names earlier ≡ any (intersects names) earlier)
      ⊎ ((earlier : List (List Bytes)) → overlaps_earlier r names earlier ≡ false)
unfolding overlaps_earlier
overlaps_known r names = split r.action.kind refl
  where
    split :
        (kind : ActionKind)
        → r.action.kind ≡ kind
        → ((earlier : List (List Bytes))
            → overlaps_earlier r names earlier ≡ any (intersects names) earlier)
          ⊎ ((earlier : List (List Bytes)) → overlaps_earlier r names earlier ≡ false)
    split action_rate_limit e = inl (λ earlier. rw e refl)
    split action_allow e = inr (λ earlier. rw e refl)
    split action_deny e = inr (λ earlier. rw e refl)
    split action_cache e = inr (λ earlier. rw e refl)
    split (action_other name) e = inr (λ earlier. rw e refl)

rate_limit_apart :
    (r : PolicyRule) (names first : List Bytes) (rest : List (List Bytes))
    → r.action.kind ≡ action_rate_limit
    → overlaps_earlier r names (first ∷ rest) ≡ false
    → intersects names first ≡ false
unfolding overlaps_earlier
rate_limit_apart r names first rest e h = let k = rw e at h in ground arith

later_Accepted :
    (catalog : Catalog) (seen : Seen) (q r : PolicyRule)
    → Accepted catalog (see catalog seen q) r
    → Accepted catalog seen r
unfolding see overlaps_earlier
later_Accepted catalog seen q r a =
    let i = a.new_id in
    let c = a.new_caddy in
    let o = a.apart in
    let earlier : overlaps_earlier r (expand catalog r.match_) seen.expanded ≡ false =
      elim (overlaps_known r (expand catalog r.match_)) [
        | inl e ↦
            let k = e (expand catalog q.match_ ∷ seen.expanded) in
            let l = e seen.expanded in ground arith
        | inr e ↦ e seen.expanded
      ] in
    record { new_id = ground arith; new_caddy = ground arith; matched = a.matched; apart = earlier }

-- What two rules of an accepted policy, the first before the second, have to do with each other.
pub record Apart (catalog : Catalog) (first second : PolicyRule) : Type 0 where
  pub ids : bytes_eq second.id first.id ≡ false
  pub caddy_names : bytes_eq (caddy_name second.id) (caddy_name first.id) ≡ false
  pub names :
      second.action.kind ≡ action_rate_limit
      → intersects (expand catalog second.match_) (expand catalog first.match_) ≡ false

later-Apart :
    (catalog : Catalog) (seen : Seen) (q r : PolicyRule)
    → Accepted catalog (see catalog seen q) r
    → Apart catalog q r
unfolding see
later-Apart catalog seen q r a =
    let i = a.new_id in
    let c = a.new_caddy in
    let o = a.apart in
    record {
      ids = ground arith;
      caddy_names = ground arith;
      names = λ e.
          rate_limit_apart r (expand catalog r.match_) (expand catalog q.match_) seen.expanded e o;
    }

validate_policy_rules-Accepted :
    (catalog : Catalog) (seen : Seen) (rules : List PolicyRule) (r : PolicyRule) (i : ℕ)
    → validate_policy_rules catalog seen rules ≡ ok tt
    → get_elem? rules i ≡ some r
    → Accepted catalog seen r
unfolding validate_policy_rules see
validate_policy_rules-Accepted catalog seen [] r i h e = cc e
validate_policy_rules-Accepted catalog seen (q ∷ qs) r zero h e =
    let (u, first, rest) = >>=-eq-ok (validate_policy_rule catalog seen q) _ h in
    let same : q ≡ r = ground arith in
    validate_policy_rule-Accepted catalog seen r (rw same at first)
validate_policy_rules-Accepted catalog seen (q ∷ qs) r (suc i) h e =
    let (u, first, rest) = >>=-eq-ok (validate_policy_rule catalog seen q) _ h in
    let later = validate_policy_rules-Accepted catalog (see catalog seen q) qs r i rest e in
    later_Accepted catalog seen q r later

validate_policy_rules-Apart :
    (catalog : Catalog) (seen : Seen) (rules : List PolicyRule) (first second : PolicyRule)
    (i j : ℕ)
    → validate_policy_rules catalog seen rules ≡ ok tt
    → get_elem? rules i ≡ some first
    → get_elem? rules j ≡ some second
    → i < j
    → Apart catalog first second
unfolding validate_policy_rules see
validate_policy_rules-Apart catalog seen [] first second i j h e f o = cc e
validate_policy_rules-Apart catalog seen (q ∷ qs) first second i zero h e f o = absurd (omega arith)
validate_policy_rules-Apart catalog seen (q ∷ qs) first second zero (suc j) h e f o =
    let (u, head, rest) = >>=-eq-ok (validate_policy_rule catalog seen q) _ h in
    let same : q ≡ first = ground arith in
    let later = validate_policy_rules-Accepted catalog (see catalog seen q) qs second j rest f in
    rw (sym same) (later-Apart catalog seen q second later)
validate_policy_rules-Apart catalog seen (q ∷ qs) first second (suc i) (suc j) h e f o =
    let (u, head, rest) = >>=-eq-ok (validate_policy_rule catalog seen q) _ h in
    validate_policy_rules-Apart catalog (see catalog seen q) qs first second i j rest e f
      (omega arith)

pub validate-rules :
    (p : Policy) (catalog : Catalog)
    → validate p catalog ≡ ok tt
    → validate_policy_rules catalog (record { ids = []; caddy_names = []; expanded = [] }) p.rules
      ≡ ok tt
unfolding validate
validate-rules p catalog h = ground arith

-- In a policy that passes the validation, every rule at any place matches a cell exactly if each of
-- its dimensions is empty or fits the cell: the name, the category and the method occur among the
-- values listed, and the path equals a prefix listed, a slash at its end set aside, or goes on
-- behind it with a slash; all paths from the root go on behind the prefix that is the root.
pub validate-meaning :
    (p : Policy) (catalog : Catalog) (i : ℕ) (r : PolicyRule) (cell : PolicyCell)
    → validate p catalog ≡ ok tt
    → get_elem? p.rules i ≡ some r
    → (matches r.match_ cell ≡ true) ↔ Means r.match_ cell
validate-meaning p catalog i r cell h e =
    let a = validate_policy_rules-Accepted catalog _ p.rules r i (validate-rules p catalog h) e in
    validate_match-Means catalog r.match_ cell a.matched

-- In a policy that passes the validation, a rule differs from every earlier one in its id and in its
-- name for Caddy, and the names that a rate limit may claim are disjoint from those of every earlier rule.
pub validate-Apart :
    (p : Policy) (catalog : Catalog) (first second : PolicyRule) (i j : ℕ)
    → validate p catalog ≡ ok tt
    → get_elem? p.rules i ≡ some first
    → get_elem? p.rules j ≡ some second
    → i < j
    → Apart catalog first second
validate-Apart p catalog first second i j h =
    validate_policy_rules-Apart catalog _ p.rules first second i j (validate-rules p catalog h)
