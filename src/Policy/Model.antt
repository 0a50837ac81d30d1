-- ===== src/Policy/Model.antt =====
-- internal/domain/policy.go: the policy. A class of traffic is one of the five names, as the
-- validation demands of the categories.
use crawlledger.Policy.Matcher.{PolicyMatch}
use crawlledger.Base.{ℕ, ◌+◌, Bool, true, false, Option, List, length, ℤ, Bytes, nat_key, bytes_key}

-- Any other string is no action.
pub data ActionKind : Type 0 where
  action_allow action_deny action_rate_limit action_cache : ActionKind
  action_other : Bytes → ActionKind

unfoldable pub valid_kind : ActionKind → Bool
valid_kind (action_other name) = false
valid_kind action_allow = true
valid_kind action_deny = true
valid_kind action_rate_limit = true
valid_kind action_cache = true

pub record PolicyAction : Type 0 where
  pub kind : ActionKind
  pub rate_profile : Option Bytes
  pub cache_ttl_seconds : Option ℤ

pub record PolicyRule : Type 0 where
  pub id : Bytes
  pub match_ : PolicyMatch
  pub action : PolicyAction

pub record Policy : Type 0 where
  pub schema_version : ℕ
  pub name : Bytes
  pub rules : List PolicyRule

-- Whether a match names crawlers or categories: the only other dimensions are paths and methods.
abbrev pub crawler_terms : PolicyMatch → ℕ
crawler_terms m = length m.crawler_names + length m.categories
