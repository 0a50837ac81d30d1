-- ===== src/Examples/Simulations.antt =====
-- A policy and its simulation at concrete inputs.
use crawlledger.Domain.Event.{claimed_ai_crawler, unclassified, miss}
use crawlledger.Catalog.{Catalog, Entry}
use crawlledger.Policy.Matcher.{PolicyMatch, PolicyCell, matches}
use crawlledger.Policy.Model.{Policy, PolicyRule, action_rate_limit, action_deny}
use crawlledger.Policy.Validate.{validate}
use crawlledger.Policy.Validate.Accepted.{Means, Apart, validate-meaning, validate-Apart}
use crawlledger.Policy.Simulate.{TrafficCell, Simulator, new_simulator}
use crawlledger.Policy.Simulate.Cells.{add}
use crawlledger.Policy.Simulate.Finish.{RateProfileImpact, close}
use crawlledger.Policy.Simulate.Outcome.{IsRate}
use crawlledger.Policy.Simulate.Risks.{Risk, high, info, status_for}
use crawlledger.Policy.Simulate.Status.{described, status_for-described}
use crawlledger.App.Simulate.{StoredRows, read_rows, run_simulation, conservation_failed}
use crawlledger.App.Simulate.Conserves.{covers, run_simulation-conservation}
use crawlledger.Base.{
  ◌≡◌, refl, ◌≢◌, ◌↔◌, true, false, Option, none, some, List, [], ◌∷◌, arith, ok, err, ◌>>=◌, pos,
  Bytes, bytes, bytes_eq, bytes_lt, has_prefix, contains, lookup, insert, insert_by, sort_by,
  nat_key, bytes_key,
}

abbrev crawlers : Catalog
crawlers = record {
  entries =
      record {
        name = bytes "GPTBot";
        token = bytes "GPTBot";
        category = claimed_ai_crawler;
        protected_default = false;
        source = bytes "s";
        source_version = bytes "1";
      }
      ∷ [];
}

abbrev limit_rule : PolicyRule
limit_rule = record {
  id = bytes "a-b";
  match_ = record {
    crawler_names = bytes "GPTBot" ∷ [];
    categories = [];
    path_prefixes = [];
    methods = [];
  };
  action = record {
    kind = action_rate_limit;
    rate_profile = some (bytes "standard");
    cache_ttl_seconds = none;
  };
}

abbrev deny_rule : PolicyRule
deny_rule = record {
  id = bytes "c";
  match_ = record {
    crawler_names = [];
    categories = [];
    path_prefixes = bytes "/x" ∷ [];
    methods = bytes "GET" ∷ [];
  };
  action = record { kind = action_deny; rate_profile = none; cache_ttl_seconds = none };
}

abbrev two_rules : Policy
two_rules = record { schema_version = 1; name = bytes "p"; rules = limit_rule ∷ deny_rule ∷ [] }

abbrev crawler_cell : TrafficCell
crawler_cell = record {
  route = bytes "/a";
  actionable_prefix = some (bytes "/a");
  method = bytes "GET";
  claim_name = some (bytes "GPTBot");
  claim_category = some claimed_ai_crawler;
  protected_default = false;
  primary_class = claimed_ai_crawler;
  cache_state = miss;
  requests = pos 5;
  bytes_sent = pos 100;
  upstream_us = none;
  upstream_samples = pos 0;
}

abbrev denied_cell : TrafficCell
denied_cell = record crawler_cell {
  route = bytes "/x/{id}";
  actionable_prefix = some (bytes "/x");
  claim_name = none;
  claim_category = none;
  primary_class = unclassified;
  requests = pos 3;
}

abbrev crawler_rate : RateProfileImpact
crawler_rate = record {
  claim_name = some (bytes "GPTBot");
  claim_category = some claimed_ai_crawler;
  profile = bytes "standard";
  modeled_requests = pos 5;
  allowed_requests = pos 3;
  limited_requests = pos 2;
  limited_bytes = pos 40;
  limited_upstream_us = none;
  limited_upstream_samples = pos 0;
}

abbrev stored_rows : StoredRows
stored_rows = record {
  route_overflow = pos 0;
  cells = crawler_cell ∷ denied_cell ∷ [];
  subjects = (some (bytes "GPTBot"), some claimed_ai_crawler) ∷ [];
  rates = crawler_rate ∷ [];
}

abbrev name_of_run : Bytes → Bytes → Option Bytes
name_of_run analysis_id policy_hash = some analysis_id

two_rules_valid : validate two_rules crawlers ≡ ok tt
unfolding validate crawlledger.Policy.Validate.is_identifier
    crawlledger.Policy.Validate.validate_policy_rules
    crawlledger.Policy.Validate.validate_policy_rule crawlledger.Policy.Validate.validate_match
    crawlledger.Policy.Validate.valid_array crawlledger.Policy.Validate.sorted_unique
    crawlledger.Policy.Validate.is_known crawlledger.Policy.Validate.validate_action_kind
    crawlledger.Policy.Validate.valid_profile crawlledger.Policy.Validate.see
    crawlledger.Policy.Validate.caddy_name crawlledger.Policy.Validate.valid_path
    crawlledger.Policy.Validate.expand crawlledger.Policy.Validate.has_duplicate
    crawlledger.Policy.Validate.intersects crawlledger.Policy.Validate.overlaps_earlier
    crawlledger.Policy.Validate.strings_are_sorted crawlledger.Catalog.by_name
    crawlledger.Catalog.named_in crawlledger.Catalog.names_by_category
    crawlledger.Catalog.same_class crawlledger.Domain.Event.claimed
    crawlledger.Domain.Event.class_name crawlledger.Domain.Text.valid_method bytes_eq bytes_lt
    has_prefix contains
two_rules_valid = refl

crawler_rate-IsRate : IsRate crawler_rate
crawler_rate-IsRate = record {
  allowed = 3;
  limited = 2;
  allowed_requests = refl;
  limited_requests = refl;
  modeled_requests = refl;
}

stored_covered :
    covers
      (read_rows two_rules (bytes "a") (bytes "h") stored_rows >>= (λ s. close s stored_rows.rates))
    ≡ true
unfolding read_rows close crawlledger.App.Simulate.add_subjects
    crawlledger.Policy.Simulate.new_simulator crawlledger.Policy.Simulate.set_route_overflow
    crawlledger.Policy.Simulate.add_subject_state crawlledger.Policy.Simulate.count_state
    crawlledger.Policy.Simulate.flush_route crawlledger.Policy.Simulate.flush_rows
    crawlledger.Policy.Simulate.flush_row crawlledger.Policy.Simulate.enter_route
    crawlledger.Policy.Simulate.is_other crawlledger.Policy.Simulate.ambiguous_dynamic_path
    crawlledger.Policy.Simulate.checked_add crawlledger.Policy.Simulate.add_nullable
    crawlledger.Policy.Simulate.add_value crawlledger.Policy.Simulate.is_rate_limit
    crawlledger.Policy.Simulate.Cells.add_all crawlledger.Policy.Simulate.Cells.add
    crawlledger.Policy.Simulate.Cells.actionable crawlledger.Policy.Simulate.Cells.add_rules
    crawlledger.Policy.Simulate.Cells.add_matched crawlledger.Policy.Simulate.Cells.act_as
    crawlledger.Policy.Simulate.Cells.deny_cell crawlledger.Policy.Simulate.Cells.rate_limit_cell
    crawlledger.Policy.Simulate.Cells.note_crawler crawlledger.Policy.Simulate.Cells.note_protected
    crawlledger.Policy.Simulate.Cells.note_ambiguous crawlledger.Policy.Simulate.Cells.add_optional
    crawlledger.Policy.Simulate.Finish.settle crawlledger.Policy.Simulate.Finish.settle_rate
    crawlledger.Policy.Simulate.Finish.add_rate crawlledger.Policy.Simulate.Finish.rate_matches
    crawlledger.Policy.Simulate.Finish.close_row crawlledger.Policy.Simulate.Finish.close_totals
    crawlledger.Policy.Matcher.matches crawlledger.Policy.Matcher.match_names
    crawlledger.Policy.Matcher.match_categories crawlledger.Policy.Matcher.match_prefixes
    crawlledger.Policy.Matcher.match_methods crawlledger.Policy.Matcher.contains_name
    crawlledger.Policy.Matcher.sort_search crawlledger.Policy.Matcher.search_from
    crawlledger.Policy.Matcher.segment_prefix crawlledger.Policy.Matcher.contains_class bytes_eq
    bytes_lt has_prefix contains lookup insert sort_by insert_by crawlledger.Domain.Math.ratio_ppm
stored_covered = refl

abbrev below_x : PolicyCell
below_x = record {
  actionable_prefix = some (bytes "/x/y");
  method = bytes "GET";
  claim_name = none;
  claim_category = none;
}

validate-meaning_example :
    (matches deny_rule.match_ below_x ≡ true) ↔ Means deny_rule.match_ below_x
validate-meaning_example =
    validate-meaning two_rules crawlers 1 deny_rule below_x two_rules_valid refl

validate-Apart_example : Apart crawlers limit_rule deny_rule
validate-Apart_example =
    validate-Apart two_rules crawlers limit_rule deny_rule 0 1 two_rules_valid refl refl
      (omega arith)

run_simulation-conservation_example :
    run_simulation name_of_run two_rules (bytes "a") (bytes "h") stored_rows
    ≢ err conservation_failed
run_simulation-conservation_example =
    run_simulation-conservation name_of_run two_rules crawlers (bytes "a") (bytes "h") stored_rows
      two_rules_valid (omega arith, (omega arith, tt)) (crawler_rate-IsRate, tt) stored_covered

abbrev some_risks : List Risk
some_risks =
    record {
      id = bytes "analysis-only-cache:c";
      severity = info;
      acknowledgeable = false;
      message = [];
    }
    ∷ record { id = bytes "high-impact:a"; severity = high; acknowledgeable = true; message = [] }
    ∷ []

status_for-described_example : status_for some_risks ≡ described some_risks
status_for-described_example = status_for-described some_risks
