-- ===== src/Protect/Detector/Paths.antt =====
-- `RulePathMatches` and `actionExcluded`.
use crawlledger.Protect.Config.{Config}
use crawlledger.Base.{
  ◌≡◌, refl, sym, ap, ◌∙◌, ◌↔◌, ◌⊎◌, inl, inr, Bool, true, false, ◌||◌, List, [], ◌∷◌, ◌++◌, arith,
  if◌then◌else◌, Bool-cases, any, Bytes, bytes, bytes_eq, has_prefix, has_suffix, bytes_eq_iff,
  bytes_eq_refl, has_prefix_iff, nat_key, bytes_key,
}

unfoldable pub rule_path_matches : Bytes → Bytes → Bool
rule_path_matches prefix path =
    if has_suffix prefix (bytes "/")
    then has_prefix path prefix
    else bytes_eq path prefix || has_prefix path (prefix ++ bytes "/")

abbrev pub built_in_paths : List Bytes
built_in_paths =
    bytes "/.well-known/acme-challenge/"
    ∷ bytes "/health"
    ∷ bytes "/healthz"
    ∷ bytes "/live"
    ∷ bytes "/livez"
    ∷ bytes "/ready"
    ∷ bytes "/readyz"
    ∷ []

-- The loop over the excluded paths: either path holds the other.
unfoldable pub overlaps_any : Bytes → List Bytes → Bool
overlaps_any path [] = false
overlaps_any path (e ∷ es) =
    rule_path_matches e path || rule_path_matches path e || overlaps_any path es

unfoldable pub action_excluded : Config → Bytes → Bytes → Bool
unfolding overlaps_any
action_excluded config method path_prefix =
    if bytes_eq method (bytes "OPTIONS") || bytes_eq path_prefix (bytes "/")
    then true
    else if any (bytes_eq method) config.exclusions.methods
    then true
    else overlaps_any path_prefix (built_in_paths ++ config.exclusions.path_prefixes)

-- How a path goes on behind a prefix that matches it: not at all, or at a segment.
abbrev pub IsSegmentRest : Bytes → Bytes → Type 0
IsSegmentRest prefix rest =
    (rest ≡ []) ⊎ ((has_suffix prefix (bytes "/") ≡ true) ⊎ (has_prefix rest (bytes "/") ≡ true))

append_nil : (a : Bytes) → a ++ [] ≡ a
append_nil [] = refl
append_nil (x ∷ a) = ap (◌∷◌ x) (append_nil a)

append_assoc' : (a b c : Bytes) → (a ++ b) ++ c ≡ a ++ (b ++ c)
append_assoc' [] b c = refl
append_assoc' (x ∷ a) b c = ap (◌∷◌ x) (append_assoc' a b c)

rule_path_matches-rest :
    (prefix path : Bytes)
    → rule_path_matches prefix path ≡ true
    → (rest : Bytes) × (path ≡ prefix ++ rest) × IsSegmentRest prefix rest
unfolding rule_path_matches
rule_path_matches-rest prefix path h = elim (Bool-cases (has_suffix prefix (bytes "/"))) [
  | inl directory ↦
      let (rest, e) = (has_prefix_iff path prefix).0 (rw directory at h) in
      (rest, e, inr (inl directory))
  | inr plain ↦ elim (Bool-cases (bytes_eq path prefix)) [
    | inl same ↦ ([], (bytes_eq_iff path prefix).0 same ∙ sym (append_nil prefix), inl refl)
    | inr other ↦
        let (rest, e) = (has_prefix_iff path (prefix ++ bytes "/")).0 (rw (plain, other) at h) in
        (
          bytes "/" ++ rest,
          e ∙ append_assoc' prefix (bytes "/") rest,
          inr (inr (unfold has_prefix in refl)),
        )
  ]
]

rest-rule_path_matches :
    (prefix rest : Bytes)
    → IsSegmentRest prefix rest
    → rule_path_matches prefix (prefix ++ rest) ≡ true
unfolding rule_path_matches
rest-rule_path_matches prefix rest h = elim (Bool-cases (has_suffix prefix (bytes "/"))) [
  | inl directory ↦ rw directory ((has_prefix_iff (prefix ++ rest) prefix).1 (rest, refl))
  | inr plain ↦ rw plain (elim h [
    | inl e ↦ simp (e, append_nil, bytes_eq_refl)
    | inr (inl directory) ↦ cc (plain, directory)
    | inr (inr slash) ↦
        let (more, e) = (has_prefix_iff rest (bytes "/")).0 slash in
        let found =
          (has_prefix_iff (prefix ++ rest) (prefix ++ bytes "/")).1
            (more, rw e (sym (append_assoc' prefix (bytes "/") more))) in
        ground (arith, found)
  ])
]

-- A rule matches a path exactly when the path is the rule's prefix, or goes on behind it with
-- a new segment: the prefix ends with a slash or the rest begins with one.
pub rule_path_matches_iff :
    (prefix path : Bytes)
    → (rule_path_matches prefix path ≡ true)
      ↔ ((rest : Bytes) × (path ≡ prefix ++ rest) × IsSegmentRest prefix rest)
rule_path_matches_iff prefix path = (
  rule_path_matches-rest prefix path,
  λ (rest, e, s). rw e (rest-rule_path_matches prefix rest s),
)
