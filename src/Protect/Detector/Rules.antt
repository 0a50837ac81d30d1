-- ===== src/Protect/Detector/Rules.antt =====
-- `makeProposals`, `updateRules` and what they call. The keys of the maps are the bytes of the
-- method, a zero and the prefix, as in the source.
pub mod Entries
pub mod Timely
pub mod Lifetimes
use crawlledger.Protect.State.{Rule, State, rule_less, validate_state, StateError}
use crawlledger.Protect.Detector.Groups.{Qualification}
use crawlledger.Protect.Detector.Buckets.{sum_counts}
use crawlledger.Protect.Detector.Types.{
  capacity_reached, activated, refreshed, expired, EventKind, DetectorEvent, bare_event, Detector,
  DetectorError, rolling_counter, expiry_overflows, state_invalid, action_key, microseconds,
}
use crawlledger.Protect.Detector.Observe.{or_no_buckets}
use crawlledger.Base.{
  ℕ, ◌+◌, ◌-◌, Bool, not, ◌&&◌, Option, none, some, List, [], ◌∷◌, ◌++◌, ltb, leb, if◌then◌else◌,
  Result, ok, err, ◌>>=◌, length, any, max_int64, Bytes, bytes, bytes_eq, bytes_lt, Assoc, lookup,
  insert, sort_by, nat_key, bytes_key,
}

-- The values behind the first that differ from their predecessor.
compact_from : Bytes → List Bytes → List Bytes
compact_from last [] = []
compact_from last (v ∷ vs) =
    let rest = compact_from v vs in if bytes_eq v last then rest else v ∷ rest

unfoldable pub compact_strings : List Bytes → List Bytes
unfolding compact_from
compact_strings [] = []
compact_strings (v ∷ vs) = v ∷ compact_from v vs

unfoldable pub merge_strings : List Bytes → List Bytes → List Bytes
unfolding compact_strings
merge_strings left right = compact_strings (sort_by bytes_lt (left ++ right))

pub record Proposal : Type 0 where
  pub method : Bytes
  pub path_prefix : Bytes
  pub request_threshold : ℕ
  pub reasons : List Bytes

abbrev pub Proposals : Type 0
Proposals = Assoc Bytes Proposal

-- The proposal of a key that is not there yet.
or_proposal : Qualification → Option Proposal → Proposal
or_proposal q (some p) = p
or_proposal q none = record {
  method = q.method;
  path_prefix = q.path_prefix;
  request_threshold = q.request_threshold;
  reasons = [];
}

-- One round of the first loop of `makeProposals`: the least threshold and one more reason.
unfoldable pub propose : Qualification → Proposals → Proposals
unfolding or_proposal
propose q ps =
    let key = action_key q.method q.path_prefix in
    let p = or_proposal q (lookup key ps) in
    insert key
      (record p {
        request_threshold =
            if ltb q.request_threshold p.request_threshold
            then q.request_threshold
            else p.request_threshold;
        reasons = p.reasons ++ (q.reason ∷ []);
      })
      ps

unfoldable pub propose_all : List Qualification → Proposals → Proposals
propose_all [] ps = ps
propose_all (q ∷ qs) ps = propose_all qs (propose q ps)

-- The second loop.
unfoldable pub compact_reasons : Proposals → Proposals
compact_reasons [] = []
compact_reasons ((key, p) ∷ ps) =
    (key, record p { reasons = compact_strings (sort_by bytes_lt p.reasons) }) ∷ compact_reasons ps

unfoldable pub make_proposals : List Qualification → Proposals
unfolding propose_all compact_reasons
make_proposals qs = compact_reasons (propose_all qs [])

-- The seconds are the positive time to live.
unfoldable pub add_seconds : ℕ → ℕ → Result DetectorError ℕ
add_seconds timestamp_us seconds =
    if ltb (max_int64 - microseconds seconds) timestamp_us
    then err expiry_overflows
    else ok (timestamp_us + microseconds seconds)

-- What the loops of `updateRules` change.
pub record Progress : Type 0 where
  pub rules : Assoc Bytes Rule
  pub refreshed_keys : List Bytes
  pub events : List DetectorEvent

abbrev pub is_refreshed : Bytes → List Bytes → Bool
is_refreshed key keys = any (bytes_eq key) keys

unfoldable pub rules_by_key : List Rule → Assoc Bytes Rule → Assoc Bytes Rule
rules_by_key [] m = m
rules_by_key (r ∷ rs) m = rules_by_key rs (insert (action_key r.method r.path_prefix) r m)

abbrev pub rule_event : EventKind → Rule → ℕ → DetectorEvent
rule_event kind r expires_us = record (bare_event kind) {
  method = r.method;
  path_prefix = r.path_prefix;
  request_threshold = r.request_threshold;
  expires_at_us = expires_us;
}

abbrev pub removal_event : EventKind → Bytes → Bytes → DetectorEvent
removal_event kind method path_prefix = record (bare_event kind) {
  method = method;
  path_prefix = path_prefix;
}

-- rule.LastQualifiedAtUS = evaluationUS; rule.ExpiresAtUS = expiresAtUS
abbrev pub qualify : Rule → ℕ → ℕ → Rule
qualify r evaluation_us expires_us = record r {
  last_qualified_at_us = evaluation_us;
  expires_at_us = expires_us;
}

abbrev pub new_rule : Proposal → ℕ → Rule
new_rule p evaluation_us = record {
  method = p.method;
  path_prefix = p.path_prefix;
  reasons = p.reasons;
  request_threshold = p.request_threshold;
  first_qualified_at_us = evaluation_us;
  last_qualified_at_us = 0;
  expires_at_us = 0;
}

abbrev pub write_rule : Bytes → Rule → DetectorEvent → Progress → Progress
write_rule key r event g = record {
  rules = insert key r g.rules;
  refreshed_keys = key ∷ g.refreshed_keys;
  events = g.events ++ (event ∷ []);
}

-- One round of the loop over the proposals.
unfoldable pub activate : ℕ → ℕ → ℕ → Bytes × Proposal → Progress → Progress
activate limit evaluation_us expires_us (key, p) g = elim (lookup key g.rules) [
  | none ↦
      if leb limit (length g.rules)
      then record g {
        events = g.events ++ (removal_event capacity_reached p.method p.path_prefix ∷ []);
      }
      else let rule = qualify (new_rule p evaluation_us) evaluation_us expires_us in
        write_rule key rule (rule_event activated rule expires_us) g
  | some old ↦
      let merged : Rule = record old { reasons = merge_strings old.reasons p.reasons } in
      let rule = qualify merged evaluation_us expires_us in
      write_rule key rule (rule_event refreshed rule expires_us) g
]

unfoldable pub activate_all : ℕ → ℕ → ℕ → Proposals → Progress → Progress
activate_all limit evaluation_us expires_us [] g = g
activate_all limit evaluation_us expires_us (p ∷ ps) g =
    activate_all limit evaluation_us expires_us ps (activate limit evaluation_us expires_us p g)

-- One round of the loop over the rules that the attempts may refresh.
unfoldable pub refresh_entry :
    Detector → ℕ → ℕ → Bytes × Rule → Progress → Result DetectorError Progress
refresh_entry d evaluation_us expires_us (key, r) g =
    if is_refreshed key g.refreshed_keys
    then ok g
    else elim (sum_counts (or_no_buckets (lookup key d.attempt_buckets))) [
      | none ↦ err rolling_counter
      | some attempts ↦
          if ltb attempts r.request_threshold
          then ok g
          else let event : DetectorEvent = record (rule_event refreshed r expires_us) {
            detector = bytes "active-attempts";
            requests = attempts;
          } in
            ok (write_rule key (qualify r evaluation_us expires_us) event g)
    ]

-- A write to the entry being visited leaves the others, so the loop visits the entries that
-- were there when it began.
unfoldable pub refresh_all :
    Detector → ℕ → ℕ → Assoc Bytes Rule → Progress → Result DetectorError Progress
refresh_all d evaluation_us expires_us [] g = ok g
refresh_all d evaluation_us expires_us (entry ∷ rest) g = do
  h ← refresh_entry d evaluation_us expires_us entry g
  refresh_all d evaluation_us expires_us rest h

-- The loop that drops what has expired.
unfoldable pub expire : ℕ → List Bytes → Assoc Bytes Rule → List Rule × List DetectorEvent
expire evaluation_us keys [] = ([], [])
expire evaluation_us keys ((key, r) ∷ m) =
    let (rules, events) = expire evaluation_us keys m in
    if leb r.expires_at_us evaluation_us && not (is_refreshed key keys)
    then (rules, removal_event expired r.method r.path_prefix ∷ events)
    else (r ∷ rules, events)

unfoldable pub key_order : Bytes × Proposal → Bytes × Proposal → Bool
key_order (a, p) (b, q) = bytes_lt a b

-- The two loops that write rules.
unfoldable pub qualify_rules : Detector → ℕ → Bool → Proposals → ℕ → Result DetectorError Progress
unfolding key_order
qualify_rules d evaluation_us allowed ps expires_us =
    let started =
      activate_all d.config.action.max_active_rules evaluation_us expires_us (sort_by key_order ps)
        (record { rules = rules_by_key d.state.rules []; refreshed_keys = []; events = [] }) in
    if allowed then refresh_all d evaluation_us expires_us started.rules started else ok started

abbrev pub checked :
    Result StateError (Unit {0}) → List DetectorEvent → Result DetectorError (List DetectorEvent)
checked (ok _) events = ok events
checked (err e) events = err (state_invalid e)

-- What follows the loops: the sorted rules are stored, then the state is validated.
unfoldable pub settle_rules :
    Detector → ℕ → Progress → Detector × Result DetectorError (List DetectorEvent)
settle_rules d evaluation_us g =
    let (kept, gone) = expire evaluation_us g.refreshed_keys g.rules in
    let next : State = record d.state { rules = sort_by rule_less kept } in
    (record d { state = next }, checked (validate_state next) (g.events ++ gone))

unfoldable pub update_rules :
    Detector → ℕ → Bool → Proposals → Detector × Result DetectorError (List DetectorEvent)
update_rules d evaluation_us allowed ps =
    elim (add_seconds evaluation_us d.config.action.ttl_seconds) [
      | err e ↦ (d, err e)
      | ok expires_us ↦ elim (qualify_rules d evaluation_us allowed ps expires_us) [
        | err e ↦ (d, err e)
        | ok g ↦ settle_rules d evaluation_us g
      ]
    ]
