-- ===== src/Catalog.antt =====
-- internal/catalog/catalog.go: the names of the crawlers and how a user agent claims one. The JSON
-- is decoded by the standard library, and `lower` is its strings.ToLower.
use crawlledger.Domain.Event.{CrawlerClaim, TrafficClass, claimed, class_name}
use crawlledger.Domain.Text.{within, valid_utf8}
use crawlledger.Base.{
  ℕ, Bool, true, false, not, ◌&&◌, ◌||◌, Option, none, some, List, [], ◌∷◌, ltb, leb, ◌==◌,
  if◌then◌else◌, Result, ok, err, ◌>>◌, length, drop, all, any, Bytes, bytes_eq, bytes_lt,
  has_prefix, sort_by, nat_key, bytes_key,
}

pub record Entry : Type 0 where
  pub name : Bytes
  pub token : Bytes
  pub category : TrafficClass
  pub protected_default : Bool
  pub source : Bytes
  pub source_version : Bytes

pub record Catalog : Type 0 where
  pub entries : List Entry

pub data CatalogError : Type 0 where
  empty_catalog invalid_entry duplicate_name duplicate_token : CatalogError

unfoldable pub printable_ascii : Bytes → Bool
printable_ascii = all (within 0x20 0x7e)

unfoldable pub valid_entry : Entry → Bool
unfolding printable_ascii
valid_entry e =
    leb 1 (length e.name)
    && leb (length e.name) 128
    && valid_utf8 e.name
    && leb 1 (length e.token)
    && leb (length e.token) 128
    && printable_ascii e.token
    && claimed e.category
    && not (length e.source == 0)
    && not (length e.source_version == 0)

unfoldable pub entry_less : Entry → Entry → Bool
entry_less a b =
    if not (length a.token == length b.token)
    then ltb (length b.token) (length a.token)
    else bytes_lt a.name b.name

-- The characters that may stand beside a token; the ends of the text are boundaries too.
unfoldable pub is_boundary : ℕ → Bool
is_boundary c = c == b' ' || c == b'/' || c == b';' || c == b'(' || c == b')' || c == b'+'

starts_at_boundary : Bytes → Bool
unfolding is_boundary
starts_at_boundary [] = true
starts_at_boundary (c ∷ cs) = is_boundary c

-- The search for a token from some place on; the flag is whether a boundary precedes it. A place
-- whose token is not between boundaries is skipped by one character, as in the source.
unfoldable pub token_from : Bool → Bytes → Bytes → Bool
unfolding starts_at_boundary
token_from before token [] = before && length token == 0
token_from before token (c ∷ cs) =
    (before && has_prefix (c ∷ cs) token && starts_at_boundary (drop (length token) (c ∷ cs)))
    || token_from (is_boundary c) token cs

unfoldable pub has_token : Bytes → Bytes → Bool
unfolding token_from
has_token text token = token_from true token text

abbrev pub claim_of : Entry → CrawlerClaim
claim_of e = record {
  name = e.name;
  category = e.category;
  protected_default = e.protected_default;
}

module _ (lower : Bytes → Bytes) where
  -- The loop of `load`, with the folded names and tokens seen so far.
  unfoldable pub check_entries :
      List Bytes → List Bytes → List Entry → Result CatalogError (Unit {0})
  check_entries names tokens [] = ok tt
  check_entries names tokens (e ∷ es) =
      let name = lower e.name in
      let token = lower e.token in
      if not (valid_entry e)
      then err invalid_entry
      else if any (bytes_eq name) names
      then err duplicate_name
      else if any (bytes_eq token) tokens
      then err duplicate_token
      else check_entries (name ∷ names) (token ∷ tokens) es

  -- `load` behind the decoding.
  unfoldable pub load : List Entry → Result CatalogError Catalog
  load entries =
      if length entries == 0
      then err empty_catalog
      else do check_entries [] [] entries; ok (record { entries = sort_by entry_less entries })

  unfoldable pub matching : Bytes → List Entry → List Entry
  matching text [] = []
  matching text (e ∷ es) =
      let rest = matching text es in if has_token text (lower e.token) then e ∷ rest else rest

  -- The first entry that matches, and whether another one does.
  unfoldable pub match_with_ambiguity : Catalog → Bytes → Option CrawlerClaim × Bool
  unfolding matching
  match_with_ambiguity c user_agent = elim (matching (lower user_agent) c.entries) [
    | [] ↦ (none, false)
    | e ∷ more ↦ (some (claim_of e), not (length more == 0))
  ]

-- The map `byName`: the names are unique.
unfoldable pub named_in : Bytes → List Entry → Option Entry
named_in name [] = none
named_in name (e ∷ es) = if bytes_eq e.name name then some e else named_in name es

unfoldable pub by_name : Catalog → Bytes → Option Entry
unfolding named_in
by_name c name = named_in name c.entries

unfoldable pub same_class : TrafficClass → TrafficClass → Bool
same_class a b = bytes_eq (class_name a) (class_name b)

-- The names of the entries of a category.
unfoldable pub names_by_category : TrafficClass → List Entry → List Bytes
names_by_category category [] = []
names_by_category category (e ∷ es) =
    let rest = names_by_category category es in
    if same_class e.category category then e.name ∷ rest else rest
