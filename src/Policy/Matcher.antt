-- ===== src/Policy/Matcher.antt =====
-- internal/policy/matcher.go, and the records of domain/policy.go that it reads.
pub mod Search
pub mod Segments
use crawlledger.Domain.Event.{
  TrafficClass, claimed_ai_crawler, claimed_search_crawler, claimed_other_crawler, security_probe,
  unclassified,
}
use crawlledger.Base.{
  ℕ, zero, suc, ◌+◌, ◌/◌, Bool, true, false, ◌&&◌, ◌||◌, Option, none, some, List, [], ◌∷◌, ◌++◌,
  ltb, ◌==◌, if◌then◌else◌, length, get_or, any, Bytes, bytes, bytes_eq, bytes_lt, has_prefix,
}

pub record PolicyMatch : Type 0 where
  pub crawler_names : List Bytes
  pub categories : List TrafficClass
  pub path_prefixes : List Bytes
  pub methods : List Bytes

-- The fields of domain.PolicyCell that a match reads.
pub record PolicyCell : Type 0 where
  pub actionable_prefix : Option Bytes
  pub method : Bytes
  pub claim_name : Option Bytes
  pub claim_category : Option TrafficClass

-- One step of the loop halves the range, so fuel for its length is enough.
unfoldable pub search_from : ℕ → ℕ → ℕ → List Bytes → Bytes → ℕ
search_from zero low high values target = low
search_from (suc fuel) low high values target =
    let middle = (low + high) / 2 in
    let below = bytes_lt (get_or values middle []) target in
    let rest =
      search_from fuel (if below then middle + 1 else low) (if below then high else middle) values
        target in
    if ltb low high then rest else low

unfoldable pub sort_search : List Bytes → Bytes → ℕ
unfolding search_from
sort_search values target = search_from (length values) 0 (length values) values target

unfoldable pub contains_name : List Bytes → Bytes → Bool
unfolding sort_search
contains_name values target =
    let index = sort_search values target in
    ltb index (length values) && bytes_eq (get_or values index []) target

unfoldable pub class_eq : TrafficClass → TrafficClass → Bool
class_eq claimed_ai_crawler claimed_ai_crawler = true
class_eq claimed_search_crawler claimed_search_crawler = true
class_eq claimed_other_crawler claimed_other_crawler = true
class_eq security_probe security_probe = true
class_eq unclassified unclassified = true
class_eq _ _ = false

unfoldable pub contains_class : List TrafficClass → TrafficClass → Bool
unfolding class_eq
contains_class [] target = false
contains_class (c ∷ cs) target = class_eq c target || contains_class cs target

-- strings.TrimSuffix(prefix, "/")
unfoldable pub trim_slash : Bytes → Bytes
trim_slash [] = []
trim_slash (c ∷ []) = if c == b'/' then [] else c ∷ []
trim_slash (c ∷ d ∷ rest) = c ∷ trim_slash (d ∷ rest)

unfoldable pub segment_prefix : Bytes → Bytes → Bool
unfolding trim_slash
segment_prefix value prefix =
    if bytes_eq prefix (bytes "/")
    then has_prefix value (bytes "/")
    else let trimmed = trim_slash prefix in
      bytes_eq value trimmed || has_prefix value (trimmed ++ bytes "/")

unfoldable pub match_names : List Bytes → Option Bytes → Bool
match_names [] name = true
match_names (n ∷ ns) none = false
match_names (n ∷ ns) (some name) = contains_name (n ∷ ns) name

unfoldable pub match_categories : List TrafficClass → Option TrafficClass → Bool
match_categories [] category = true
match_categories (c ∷ cs) none = false
match_categories (c ∷ cs) (some category) = contains_class (c ∷ cs) category

unfoldable pub match_prefixes : List Bytes → Option Bytes → Bool
match_prefixes [] prefix = true
match_prefixes (p ∷ ps) none = false
match_prefixes (p ∷ ps) (some prefix) = any (segment_prefix prefix) (p ∷ ps)

unfoldable pub match_methods : List Bytes → Bytes → Bool
match_methods [] method = true
match_methods (m ∷ ms) method = contains_name (m ∷ ms) method

unfoldable pub matches : PolicyMatch → PolicyCell → Bool
unfolding match_names match_categories match_prefixes match_methods
matches m cell =
    match_names m.crawler_names cell.claim_name
    && match_categories m.categories cell.claim_category
    && match_prefixes m.path_prefixes cell.actionable_prefix
    && match_methods m.methods cell.method
