-- ===== src/Policy/Validate.antt =====
-- internal/policy/validate.go. A Go map that is a set of strings is the list of its values.
pub mod Sorted
pub mod Accepted
pub mod Kinds
use crawlledger.Domain.Event.{TrafficClass, class_name, claimed}
use crawlledger.Domain.Text.{within, valid_method}
use crawlledger.Catalog.{Entry, Catalog, by_name, names_by_category}
use crawlledger.Policy.Matcher.{PolicyMatch}
use crawlledger.Policy.Model.{
  ActionKind, action_allow, action_deny, action_rate_limit, action_cache, action_other, valid_kind,
  PolicyAction, PolicyRule, Policy, crawler_terms,
}
use crawlledger.Base.{
  ℕ, ◌+◌, ◌/◌, Bool, true, false, not, ◌&&◌, ◌||◌, Option, none, some, List, [], ◌∷◌, ◌++◌, map,
  ltb, leb, ◌==◌, if◌then◌else◌, Result, ok, err, ◌>>=◌, ◌>>◌, length, all, any, ℤ, pos, negsuc,
  Bytes, bytes, bytes_eq, bytes_lt, has_prefix, contains,
}

pub data PolicyError : Type 0 where
  schema_or_name rule_count rule_id duplicate_id caddy_collision matcher_arrays : PolicyError
  policy_category category_order unknown_crawler path_prefix policy_method : PolicyError
  policy_action allow_deny_action rate_limit_action cache_action cache_methods : PolicyError
  rate_overlap : PolicyError

identifier_char : ℕ → Bool
identifier_char c = within b'a' b'z' c || within b'0' b'9' c || c == b'-'

-- The pattern ^[a-z][a-z0-9-]{0,62}$
unfoldable pub is_identifier : Bytes → Bool
unfolding identifier_char
is_identifier [] = false
is_identifier (c ∷ cs) = within b'a' b'z' c && all identifier_char cs && leb (length cs) 62

-- sort.StringsAreSorted
unfoldable pub strings_are_sorted : List Bytes → Bool
strings_are_sorted [] = true
strings_are_sorted (v ∷ []) = true
strings_are_sorted (v ∷ w ∷ vs) = not (bytes_lt w v) && strings_are_sorted (w ∷ vs)

unfoldable pub has_duplicate : List Bytes → Bool
has_duplicate [] = false
has_duplicate (v ∷ []) = false
has_duplicate (v ∷ w ∷ vs) = bytes_eq v w || has_duplicate (w ∷ vs)

unfoldable pub sorted_unique : List Bytes → Bool
unfolding strings_are_sorted has_duplicate
sorted_unique values = strings_are_sorted values && not (has_duplicate values)

-- The characters that a path must not have, and the runes outside of printable ASCII without the
-- space: a byte of any other rune is above 0x7e.
is_path_byte : ℕ → Bool
is_path_byte c =
    within 0x21 0x7e c
    && not (any (λ d. c == d) (b'\\' ∷ b'%' ∷ b'?' ∷ b'#' ∷ b'*' ∷ b'{' ∷ b'}' ∷ b' ' ∷ []))

unfoldable pub valid_path : Bytes → Bool
unfolding is_path_byte
valid_path value =
    leb 1 (length value)
    && leb (length value) 256
    && has_prefix value (bytes "/")
    && not (contains value (bytes "//"))
    && not (contains value (bytes ".."))
    && all is_path_byte value

unfoldable pub valid_profile : Bytes → Bool
valid_profile value =
    bytes_eq value (bytes "gentle")
    || bytes_eq value (bytes "standard")
    || bytes_eq value (bytes "strict")

-- strings.ReplaceAll(rule.ID, "-", "_")
unfoldable pub caddy_name : Bytes → Bytes
caddy_name = map (λ c. if c == b'-' then b'_' else c)

unfoldable pub valid_array : List Bytes → Bool
valid_array values = leb (length values) 50 && sorted_unique values

unfoldable pub is_known : Catalog → Bytes → Bool
is_known catalog name = elim (by_name catalog name) [ none ↦ false | some e ↦ true ]

-- The tests of the match.
unfoldable pub validate_match : Catalog → PolicyMatch → Result PolicyError (Unit {0})
validate_match catalog m =
    if not (valid_array m.crawler_names && valid_array m.path_prefixes && valid_array m.methods)
    then err matcher_arrays
    else if not (all claimed m.categories)
    then err policy_category
    else if not (valid_array (map class_name m.categories))
    then err category_order
    else if not (all (is_known catalog) m.crawler_names)
    then err unknown_crawler
    else if not (all valid_path m.path_prefixes)
    then err path_prefix
    else if not (all valid_method m.methods)
    then err policy_method
    else ok tt

is_none : {A : Type 0} → Option A → Bool
is_none none = true
is_none (some a) = false

rate_profile_ok : Option Bytes → Bool
rate_profile_ok none = false
rate_profile_ok (some p) = valid_profile p

ttl_ok : Option ℤ → Bool
ttl_ok none = false
ttl_ok (some (pos n)) = leb 1 n && leb n 86400
ttl_ok (some (negsuc n)) = false

-- The switch over the kinds.
unfoldable pub validate_action_kind : PolicyRule → Result PolicyError (Unit {0})
unfolding is_none rate_profile_ok ttl_ok
validate_action_kind r =
    let m = r.match_ in
    let paths = length m.path_prefixes in
    let methods = length m.methods in
    let plain =
      if crawler_terms m + paths + methods == 0
        || not (is_none r.action.rate_profile)
        || not (is_none r.action.cache_ttl_seconds)
      then err allow_deny_action
      else ok tt in
    elim r.action.kind [
      | action_allow ↦ plain
      | action_deny ↦ plain
      | action_rate_limit ↦
          if crawler_terms m == 0
            || not (paths + methods == 0)
            || not (is_none r.action.cache_ttl_seconds)
            || not (rate_profile_ok r.action.rate_profile)
          then err rate_limit_action
          else ok tt
      | action_cache ↦
          if paths == 0
            || not (crawler_terms m == 0)
            || not (is_none r.action.rate_profile)
            || not (ttl_ok r.action.cache_ttl_seconds)
            || methods == 0
          then err cache_action
          else if not (all (λ v. bytes_eq v (bytes "GET") || bytes_eq v (bytes "HEAD")) m.methods)
          then err cache_methods
          else ok tt
      | action_other name ↦ err policy_action
    ]

names_of_categories : Catalog → List TrafficClass → List Bytes
names_of_categories catalog [] = []
names_of_categories catalog (c ∷ cs) =
    names_by_category c catalog.entries ++ names_of_categories catalog cs

-- The names that a match may claim.
unfoldable pub expand : Catalog → PolicyMatch → List Bytes
unfolding names_of_categories
expand catalog m =
    if crawler_terms m == 0
    then map (λ (e : Entry). e.name) catalog.entries ++ (bytes "{unclaimed}" ∷ [])
    else m.crawler_names ++ names_of_categories catalog m.categories

unfoldable pub intersects : List Bytes → List Bytes → Bool
intersects left right = any (λ v. any (bytes_eq v) right) left

-- What the loop over the rules has seen.
pub record Seen : Type 0 where
  pub ids : List Bytes
  pub caddy_names : List Bytes
  pub expanded : List (List Bytes)

unfoldable pub overlaps_earlier : PolicyRule → List Bytes → List (List Bytes) → Bool
overlaps_earlier r names earlier = elim r.action.kind [
  | action_rate_limit ↦ any (intersects names) earlier
  | _ ↦ false
]

unfoldable pub validate_policy_rule : Catalog → Seen → PolicyRule → Result PolicyError (Unit {0})
unfolding overlaps_earlier
validate_policy_rule catalog seen r =
    if not (is_identifier r.id)
    then err rule_id
    else if any (bytes_eq r.id) seen.ids
    then err duplicate_id
    else if any (bytes_eq (caddy_name r.id)) seen.caddy_names
    then err caddy_collision
    else do
      validate_match catalog r.match_
      validate_action_kind r
      if overlaps_earlier r (expand catalog r.match_) seen.expanded then err rate_overlap else ok tt

unfoldable pub see : Catalog → Seen → PolicyRule → Seen
see catalog seen r = record {
  ids = r.id ∷ seen.ids;
  caddy_names = caddy_name r.id ∷ seen.caddy_names;
  expanded = expand catalog r.match_ ∷ seen.expanded;
}

unfoldable pub validate_policy_rules :
    Catalog → Seen → List PolicyRule → Result PolicyError (Unit {0})
validate_policy_rules catalog seen [] = ok tt
validate_policy_rules catalog seen (r ∷ rs) = do
  validate_policy_rule catalog seen r
  validate_policy_rules catalog (see catalog seen r) rs

unfoldable pub validate : Policy → Catalog → Result PolicyError (Unit {0})
validate p catalog =
    if not (p.schema_version == 1) || not (is_identifier p.name)
    then err schema_or_name
    else if ltb (length p.rules) 1 || ltb 100 (length p.rules)
    then err rule_count
    else validate_policy_rules catalog (record { ids = []; caddy_names = []; expanded = [] })
        p.rules
