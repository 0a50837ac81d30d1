-- ===== src/Protect/Detector/Rules/Lifetimes.antt =====
-- How many rules `updateRules` leaves, and for how long.
use crawlledger.Protect.State.{Rule, rule_less, validate_state, StateError}
use crawlledger.Protect.Detector.Types.{DetectorEvent, Detector, DetectorError}
use crawlledger.Protect.Detector.Rules.{
  Proposals, Progress, add_seconds, rules_by_key, activate_all, expire, key_order, qualify_rules,
  checked, settle_rules, update_rules,
}
use crawlledger.Protect.Detector.Rules.Entries.{
  all-IsKnown, rules_by_key-IsDistinct, length-rules_by_key, vacuous, length-expire,
  expire-unexpired, All-expire, All-rules_by_key,
}
use crawlledger.Protect.Detector.Rules.Timely.{
  IsTimely, activate_all-IsTimely, refresh_all-IsTimely,
}
use crawlledger.Base.{
  ℕ, ◌≤◌, ◌<◌, ◌≡◌, refl, Bool, true, false, List, [], arith, Result, ok, err, length, All, sort_by,
  length-sort_by, All-sort_by, nat_key, bytes_key,
}

abbrev pub limit_of : Detector → ℕ
limit_of d = d.config.action.max_active_rules

abbrev start : Detector → Progress
start d = record { rules = rules_by_key d.state.rules []; refreshed_keys = []; events = [] }

module _ (d : Detector) (evaluation_us : ℕ) (ps : Proposals) (expires_us : ℕ) where
  started : Progress
  started = activate_all (limit_of d) evaluation_us expires_us (sort_by key_order ps) (start d)

  started-IsTimely : length d.state.rules ≤ limit_of d → IsTimely (limit_of d) expires_us started
  unfolding started
  started-IsTimely h =
      activate_all-IsTimely (limit_of d) expires_us evaluation_us (sort_by key_order ps) (start d)
        (record {
          distinct = rules_by_key-IsDistinct d.state.rules [] tt;
          bounded = omega (arith, length-rules_by_key d.state.rules []);
          renewed = vacuous expires_us (rules_by_key d.state.rules []);
        })

  qualify_rules-IsTimely :
      (allowed : Bool) (g : Progress)
      → length d.state.rules ≤ limit_of d
      → qualify_rules d evaluation_us allowed ps expires_us ≡ ok g
      → IsTimely (limit_of d) expires_us g
  unfolding qualify_rules started
  qualify_rules-IsTimely true g h e =
      refresh_all-IsTimely (limit_of d) expires_us d evaluation_us started.rules started g e
        (all-IsKnown started.rules) (started-IsTimely h)
  qualify_rules-IsTimely false g h e = let same : g ≡ started = cc e in rw same (started-IsTimely h)

-- What the rules are after an update at `evaluation_us`.
pub record IsSettled (d e : Detector) (evaluation_us : ℕ) : Type 0 where
  pub unexpired : All (λ r. evaluation_us < r.expires_at_us) e.state.rules
  pub bounded : length e.state.rules ≤ d.config.action.max_active_rules
  pub validated : validate_state e.state ≡ ok tt

checked-ok :
    (r : Result StateError (Unit {0})) (gathered events : List DetectorEvent)
    → checked r gathered ≡ ok events
    → r ≡ ok tt
checked-ok (ok tt) gathered events h = refl
checked-ok (err e) gathered events h = cc h

add_seconds-later :
    (timestamp_us seconds expires_us : ℕ)
    → 0 < seconds
    → add_seconds timestamp_us seconds ≡ ok expires_us
    → timestamp_us < expires_us
unfolding add_seconds
add_seconds-later timestamp_us seconds expires_us h e = ground arith

settle_rules-IsSettled :
    (d : Detector) (evaluation_us expires_us : ℕ) (g : Progress) (events : List DetectorEvent)
    → evaluation_us < expires_us
    → IsTimely (limit_of d) expires_us g
    → (settle_rules d evaluation_us g).1 ≡ ok events
    → IsSettled d (settle_rules d evaluation_us g).0 evaluation_us
unfolding settle_rules
settle_rules-IsSettled d evaluation_us expires_us g events h t e =
    let kept = (expire evaluation_us g.refreshed_keys g.rules).0 in
    let size = length-expire evaluation_us g.refreshed_keys g.rules in
    record {
      unexpired =
          All-sort_by rule_less (λ r. evaluation_us < r.expires_at_us) kept
            (expire-unexpired evaluation_us expires_us g.refreshed_keys g.rules h t.renewed);
      bounded = omega (arith, size, t.bounded, length-sort_by rule_less kept);
      validated =
          checked-ok (validate_state (record d.state { rules = sort_by rule_less kept })) _ events
            e;
    }

pub update_rules-IsSettled :
    (d : Detector) (evaluation_us : ℕ) (allowed : Bool) (ps : Proposals)
    (events : List DetectorEvent)
    → 0 < d.config.action.ttl_seconds
    → length d.state.rules ≤ limit_of d
    → (update_rules d evaluation_us allowed ps).1 ≡ ok events
    → IsSettled d (update_rules d evaluation_us allowed ps).0 evaluation_us
unfolding update_rules
update_rules-IsSettled d evaluation_us allowed ps events ttl h e =
    with_time (add_seconds evaluation_us d.config.action.ttl_seconds) refl
  where
    with_rules :
        (expires_us : ℕ)
        → add_seconds evaluation_us d.config.action.ttl_seconds ≡ ok expires_us
        → (q : Result DetectorError Progress)
        → qualify_rules d evaluation_us allowed ps expires_us ≡ q
        → IsSettled d (update_rules d evaluation_us allowed ps).0 evaluation_us
    with_rules expires_us k (err x) l = cc (rw (k, l, update_rules) at e)
    with_rules expires_us k (ok g) l =
        rw (k, l, update_rules)
          (settle_rules-IsSettled d evaluation_us expires_us g events
            (add_seconds-later evaluation_us d.config.action.ttl_seconds expires_us ttl k)
            (qualify_rules-IsTimely d evaluation_us ps expires_us allowed g h l)
            (rw (k, l, update_rules) at e))

    with_time :
        (x : Result DetectorError ℕ)
        → add_seconds evaluation_us d.config.action.ttl_seconds ≡ x
        → IsSettled d (update_rules d evaluation_us allowed ps).0 evaluation_us
    with_time (err x) k = cc (rw (k, update_rules) at e)
    with_time (ok expires_us) k =
        with_rules expires_us k (qualify_rules d evaluation_us allowed ps expires_us) refl

pub update_rules-config :
    (d : Detector) (evaluation_us : ℕ) (allowed : Bool) (ps : Proposals)
    → (update_rules d evaluation_us allowed ps).0.config ≡ d.config
unfolding update_rules settle_rules
update_rules-config d evaluation_us allowed ps =
    with_time (add_seconds evaluation_us d.config.action.ttl_seconds) refl
  where
    with_rules :
        (expires_us : ℕ)
        → add_seconds evaluation_us d.config.action.ttl_seconds ≡ ok expires_us
        → (q : Result DetectorError Progress)
        → qualify_rules d evaluation_us allowed ps expires_us ≡ q
        → (update_rules d evaluation_us allowed ps).0.config ≡ d.config
    with_rules expires_us k (err x) l = rw (k, l, update_rules) refl
    with_rules expires_us k (ok g) l = rw (k, l, update_rules) refl

    with_time :
        (x : Result DetectorError ℕ)
        → add_seconds evaluation_us d.config.action.ttl_seconds ≡ x
        → (update_rules d evaluation_us allowed ps).0.config ≡ d.config
    with_time (err x) k = rw (k, update_rules) refl
    with_time (ok expires_us) k =
        with_rules expires_us k (qualify_rules d evaluation_us allowed ps expires_us) refl

-- Without a proposal and with no rule allowed to start, whatever holds of every rule before
-- the update holds of every rule after it.
pub update_rules-not_allowed :
    (P : Rule → Type 0) (d : Detector) (evaluation_us : ℕ)
    → All P d.state.rules
    → All P (update_rules d evaluation_us false []).0.state.rules
unfolding update_rules qualify_rules activate_all settle_rules sort_by
update_rules-not_allowed P d evaluation_us a =
    let m = rules_by_key d.state.rules [] in
    let before = All-rules_by_key P d.state.rules [] tt a tt in
    let kept = (expire evaluation_us [] m).0 in
    let after = All-sort_by rule_less P kept (All-expire P evaluation_us [] m before) in
    with_time after (add_seconds evaluation_us d.config.action.ttl_seconds) refl
  where
    with_time :
        All P (sort_by rule_less (expire evaluation_us [] (rules_by_key d.state.rules [])).0)
        → (x : Result DetectorError ℕ) → add_seconds evaluation_us d.config.action.ttl_seconds ≡ x
        → All P (update_rules d evaluation_us false []).0.state.rules
    with_time after (err x) k = rw (k, update_rules) a
    with_time after (ok expires_us) k = rw (k, update_rules) after
