-- ===== src/Protect/Detector/Evaluate/Application.antt =====
-- When a decision asks to apply the rules.
use crawlledger.Protect.State.{ApplyRule, project_rules}
use crawlledger.Protect.Detector.Types.{Detector, DetectorEvent}
use crawlledger.Protect.Detector.Evaluate.{
  apply_rule_equal, apply_rules_equal, apply_rule_removed, apply_now, decide,
}
use crawlledger.Base.{
  ℕ, zero, suc, ◌≡◌, refl, sym, ap, ◌≢◌, ◌↔◌, inl, inr, true, false, some, List, [], ◌∷◌, arith,
  Bool-cases, get_elem?, any, bytes_eq_iff, bytes_eq_refl, nat_key, bytes_key,
}

apply_rule_equal-eq : (a b : ApplyRule) → apply_rule_equal a b ≡ true → a ≡ b
unfolding apply_rule_equal
apply_rule_equal-eq a b h =
    ground (arith, bytes_eq_iff a.method b.method, bytes_eq_iff a.path_prefix b.path_prefix)

apply_rule_equal_refl : (a : ApplyRule) → apply_rule_equal a a ≡ true
unfolding apply_rule_equal
apply_rule_equal_refl a = simp bytes_eq_refl

apply_rules_equal_iff : (l m : List ApplyRule) → (apply_rules_equal l m ≡ true) ↔ (l ≡ m)
unfolding apply_rules_equal
apply_rules_equal_iff l m = (equal l m, λ e. rw e (same m))
  where
    equal : (l m : List ApplyRule) → apply_rules_equal l m ≡ true → l ≡ m
    equal [] [] h = refl
    equal [] (b ∷ m) h = cc h
    equal (a ∷ l) [] h = cc h
    equal (a ∷ l) (b ∷ m) h = ground (arith, apply_rule_equal-eq a b, equal l m)

    same : (l : List ApplyRule) → apply_rules_equal l l ≡ true
    same [] = refl
    same (a ∷ l) = ground (arith, apply_rule_equal_refl a, same l)

-- A rule that equals none of the list.
absent_any :
    (gone : ApplyRule) (desired : List ApplyRule)
    → ((j : ℕ) → get_elem? desired j ≢ some gone)
    → any (apply_rule_equal gone) desired ≡ false
absent_any gone [] h = refl
absent_any gone (b ∷ m) h = elim (Bool-cases (apply_rule_equal gone b)) [
  | inl same ↦ absurd (h zero (ap some (sym (apply_rule_equal-eq gone b same))))
  | inr other ↦ rw other (absent_any gone m (λ j. h (suc j)))
]

apply_rule_removed-absent :
    (applied desired : List ApplyRule) (i : ℕ) (gone : ApplyRule)
    → get_elem? applied i ≡ some gone
    → ((j : ℕ) → get_elem? desired j ≢ some gone)
    → apply_rule_removed applied desired ≡ true
unfolding apply_rule_removed
apply_rule_removed-absent [] desired i gone e h = cc e
apply_rule_removed-absent (a ∷ applied) desired zero gone e h =
    let same : a ≡ gone = ground arith in rw (same, absent_any gone desired h) refl
apply_rule_removed-absent (a ∷ applied) desired (suc i) gone e h =
    let rest = apply_rule_removed-absent applied desired i gone e h in ground arith

apply_rules_equal-absent :
    (applied desired : List ApplyRule) (i : ℕ) (gone : ApplyRule)
    → get_elem? applied i ≡ some gone
    → ((j : ℕ) → get_elem? desired j ≢ some gone)
    → apply_rules_equal applied desired ≡ false
apply_rules_equal-absent applied desired i gone e h =
    elim (Bool-cases (apply_rules_equal applied desired)) [
      | inl equal ↦
          let same = (apply_rules_equal_iff applied desired).0 equal in absurd (h i (rw same at e))
      | inr differ ↦ differ
    ]

-- Where a rule recorded as applied, at any place, stands at no place of the method and path pairs of
-- the rules in force, the decision asks for an application, and for one without a delay, whatever
-- the times and the limit of the reloads.
pub decide-apply :
    (before after : Detector) (evaluation_us : ℕ) (events : List DetectorEvent) (i : ℕ)
    (gone : ApplyRule)
    → get_elem? after.applied_rules i ≡ some gone
    → ((j : ℕ) → get_elem? (project_rules after.state.rules) j ≢ some gone)
    → ((decide before after evaluation_us events).apply_required ≡ true)
      × ((decide before after evaluation_us events).apply_now ≡ true)
unfolding decide apply_now
decide-apply before after evaluation_us events i gone e h =
    let applied = after.applied_rules in
    let desired = project_rules after.state.rules in
    rw
      (
        apply_rules_equal-absent applied desired i gone e h,
        apply_rule_removed-absent applied desired i gone e h,
      )
      (refl, refl)
