-- ===== src/Policy/Matcher/Segments.antt =====
-- What `MatchRule` says of a path and of a category, told without the code's own tests.
use crawlledger.Domain.Event.{
  TrafficClass, claimed_ai_crawler, claimed_search_crawler, claimed_other_crawler, security_probe,
  unclassified,
}
use crawlledger.Policy.Matcher.{
  class_eq, contains_class, trim_slash, segment_prefix, match_names, match_categories,
  match_prefixes, match_methods,
}
use crawlledger.Policy.Matcher.Search.{IsSorted, contains_name-occurs}
use crawlledger.Base.{
  ℕ, zero, suc, ◌≡◌, refl, sym, ap, ◌∙◌, ◌≢◌, ◌↔◌, ◌⊎◌, inl, inr, Bool, true, false, ◌||◌, Option,
  none, some, List, [], ◌∷◌, ◌++◌, arith, ◌==◌, Bool-cases, get_elem?, any, Bytes, bytes, bytes_eq,
  bytes_eq_iff, bytes_eq_refl, has_prefix_iff, nat_key, bytes_key,
}

-- Some value of the list is related to the one given.
abbrev pub Lists : {A B : Type 0} → (B → A → Type 0) → B → List A → Type 0
Lists {A = A} R b values = (i : ℕ) × (a : A) × (get_elem? values i ≡ some a) × R b a

-- A dimension without values admits everything; else the cell has a value, related to one listed.
abbrev pub Admits : {A B : Type 0} → (B → A → Type 0) → List A → Option B → Type 0
Admits R [] value = Unit
Admits R (v ∷ vs) none = ⊥
Admits R (v ∷ vs) (some b) = Lists R b (v ∷ vs)

-- The prefix less the slash that it may end with.
abbrev pub IsStem : Bytes → Bytes → Type 0
IsStem prefix stem =
    (prefix ≡ stem ++ bytes "/")
    ⊎ ((prefix ≡ stem) × ((front : Bytes) → prefix ≢ front ++ bytes "/"))

-- The path is the stem of the prefix, if the prefix is not the root, or goes on with a slash
-- behind that stem.
abbrev pub Covers : Bytes → Bytes → Type 0
Covers path prefix =
    (stem : Bytes) × IsStem prefix stem
    × (((path ≡ stem) × (prefix ≢ bytes "/"))
        ⊎ ((rest : Bytes) × (path ≡ (stem ++ bytes "/") ++ rest)))

trim_slash-append : (stem : Bytes) → trim_slash (stem ++ bytes "/") ≡ stem
unfolding trim_slash
trim_slash-append [] = refl
trim_slash-append (c ∷ []) = refl
trim_slash-append (c ∷ d ∷ rest) = ap (◌∷◌ c) (trim_slash-append (d ∷ rest))

trim_slash-IsStem : (prefix : Bytes) → IsStem prefix (trim_slash prefix)
unfolding trim_slash
trim_slash-IsStem [] = inr (refl, front_some)
  where
    front_some : (front : Bytes) → [] ≢ front ++ bytes "/"
    front_some [] e = cc e
    front_some (x ∷ xs) e = cc e
trim_slash-IsStem (c ∷ []) = elim (Bool-cases (c == b'/')) [
  | inl slash ↦ rw slash (inl (ground arith))
  | inr plain ↦ rw plain (inr (refl, single plain))
]
  where
    single : (c == b'/') ≡ false → (front : Bytes) → c ∷ [] ≢ front ++ bytes "/"
    single h [] e = ground arith
    single h (x ∷ []) e = cc e
    single h (x ∷ y ∷ ys) e = cc e
trim_slash-IsStem (c ∷ d ∷ rest) = elim (trim_slash-IsStem (d ∷ rest)) [
  | inl slash ↦ inl (ap (◌∷◌ c) slash)
  | inr (same, plain) ↦ inr (ap (◌∷◌ c) same, longer plain)
]
  where
    longer :
        ((front : Bytes) → d ∷ rest ≢ front ++ bytes "/")
        → (front : Bytes) → c ∷ d ∷ rest ≢ front ++ bytes "/"
    longer h [] e = cc e
    longer h (x ∷ xs) e = let tail : d ∷ rest ≡ xs ++ bytes "/" = cc e in h xs tail

IsStem-trim_slash : (prefix stem : Bytes) → IsStem prefix stem → trim_slash prefix ≡ stem
IsStem-trim_slash prefix stem (inl slash) = rw slash (trim_slash-append stem)
IsStem-trim_slash prefix stem (inr (same, plain)) = elim (trim_slash-IsStem prefix) [
  | inl slash ↦ absurd (plain (trim_slash prefix) slash)
  | inr (whole, more) ↦ sym whole ∙ same
]

segment_prefix-Covers :
    (path prefix : Bytes) → segment_prefix path prefix ≡ true → Covers path prefix
unfolding segment_prefix
segment_prefix-Covers path prefix h = elim (Bool-cases (bytes_eq prefix (bytes "/"))) [
  | inl root ↦
      let (rest, e) = (has_prefix_iff path (bytes "/")).0 (rw root at h) in
      ([], inl ((bytes_eq_iff prefix (bytes "/")).0 root), inr (rest, e))
  | inr other ↦
      let apart : prefix ≢ bytes "/" =
        λ e. let same = (bytes_eq_iff prefix (bytes "/")).1 e in cc (same, other) in
      let below = rw other at h in
      let stem = trim_slash prefix in
      elim (Bool-cases (bytes_eq path stem)) [
        | inl whole ↦
            (stem, trim_slash-IsStem prefix, inl ((bytes_eq_iff path stem).0 whole, apart))
        | inr longer ↦
            let (rest, e) = (has_prefix_iff path (stem ++ bytes "/")).0 (rw longer at below) in
            (stem, trim_slash-IsStem prefix, inr (rest, e))
      ]
]

Covers-segment_prefix :
    (path prefix : Bytes) → Covers path prefix → segment_prefix path prefix ≡ true
unfolding segment_prefix
Covers-segment_prefix path prefix (stem, s, c) =
    let trimmed = IsStem-trim_slash prefix stem s in
    elim (Bool-cases (bytes_eq prefix (bytes "/"))) [
      | inl root ↦
          let e = (bytes_eq_iff prefix (bytes "/")).0 root in
          let empty : stem ≡ [] = sym trimmed ∙ (ap trim_slash e ∙ trim_slash-append []) in
          elim c [
            | inl (same, apart) ↦ absurd (apart e)
            | inr (rest, longer) ↦
                rw root ((has_prefix_iff path (bytes "/")).1 (rest, rw empty at longer))
          ]
      | inr other ↦
          rw (other, trimmed)
            (elim c [
              | inl (same, apart) ↦ rw (same, bytes_eq_refl) refl
              | inr (rest, longer) ↦
                  let found = (has_prefix_iff path (stem ++ bytes "/")).1 (rest, longer) in
                  ground arith
            ])
    ]

class_eq_refl : (c : TrafficClass) → class_eq c c ≡ true
unfolding class_eq
class_eq_refl claimed_ai_crawler = refl
class_eq_refl claimed_search_crawler = refl
class_eq_refl claimed_other_crawler = refl
class_eq_refl security_probe = refl
class_eq_refl unclassified = refl

class_eq_same : (c d : TrafficClass) → class_eq c d ≡ true → d ≡ c
unfolding class_eq
class_eq_same claimed_ai_crawler claimed_ai_crawler h = refl
class_eq_same claimed_search_crawler claimed_search_crawler h = refl
class_eq_same claimed_other_crawler claimed_other_crawler h = refl
class_eq_same security_probe security_probe h = refl
class_eq_same unclassified unclassified h = refl
class_eq_same _ _ h = cc h

-- A test that decides the relation finds a related value exactly if there is one.
any-Lists :
    {A B : Type 0} (R : B → A → Type 0) (test : A → Bool) (b : B)
    → ((a : A) → (test a ≡ true) ↔ R b a)
    → (values : List A) → (any test values ≡ true) ↔ Lists R b values
any-Lists {A = A} R test b decides [] = ((λ h. cc h), (λ (i, a, e, r). cc e))
any-Lists {A = A} R test b decides (v ∷ vs) =
    let rest = any-Lists R test b decides vs in (forward rest.0, backward rest.1)
  where
    forward : (any test vs ≡ true → Lists R b vs) → any test (v ∷ vs) ≡ true → Lists R b (v ∷ vs)
    forward later h = elim (Bool-cases (test v)) [
      | inl here ↦ (zero, v, refl, (decides v).0 here)
      | inr not_here ↦ let (i, a, e, r) = later (rw not_here at h) in (suc i, a, e, r)
    ]

    backward : (Lists R b vs → any test vs ≡ true) → Lists R b (v ∷ vs) → any test (v ∷ vs) ≡ true
    backward later (zero, a, e, r) =
        let same : v ≡ a = ground arith in let found = (decides a).1 r in rw same (rw found refl)
    backward later (suc i, a, e, r) = let rest = later (i, a, e, r) in ground arith

contains_class-any :
    (cs : List TrafficClass) (c : TrafficClass) → contains_class cs c ≡ any (λ d. class_eq d c) cs
unfolding contains_class
contains_class-any [] c = refl
contains_class-any (d ∷ cs) c = ap (λ b. class_eq d c || b) (contains_class-any cs c)

pub match_names-Admits :
    (values : List Bytes) (name : Option Bytes)
    → IsSorted values
    → (match_names values name ≡ true) ↔ Admits (λ a b. a ≡ b) values name
unfolding match_names
match_names-Admits [] name sorted = ((λ h. tt), (λ u. refl))
match_names-Admits (v ∷ vs) none sorted = ((λ h. cc h), (λ u. absurd u))
match_names-Admits (v ∷ vs) (some name) sorted =
    rw (contains_name-occurs (v ∷ vs) name sorted)
      (any-Lists (λ a b. a ≡ b) (bytes_eq name) name (bytes_eq_iff name) (v ∷ vs))

pub match_methods-Admits :
    (values : List Bytes) (method : Bytes)
    → IsSorted values
    → (match_methods values method ≡ true) ↔ Admits (λ a b. a ≡ b) values (some method)
unfolding match_methods
match_methods-Admits [] method sorted = ((λ h. tt), (λ u. refl))
match_methods-Admits (v ∷ vs) method sorted =
    rw (contains_name-occurs (v ∷ vs) method sorted)
      (any-Lists (λ a b. a ≡ b) (bytes_eq method) method (bytes_eq_iff method) (v ∷ vs))

pub match_categories-Admits :
    (cs : List TrafficClass) (category : Option TrafficClass)
    → (match_categories cs category ≡ true) ↔ Admits (λ a b. a ≡ b) cs category
unfolding match_categories
match_categories-Admits [] category = ((λ h. tt), (λ u. refl))
match_categories-Admits (c ∷ cs) none = ((λ h. cc h), (λ u. absurd u))
match_categories-Admits (c ∷ cs) (some category) = rw (contains_class-any (c ∷ cs) category) (
    any-Lists (λ a b. a ≡ b) (λ d. class_eq d category) category
      (λ d. ((λ h. class_eq_same d category h), (λ e. rw e (class_eq_refl d)))) (c ∷ cs))

pub match_prefixes-Admits :
    (ps : List Bytes) (path : Option Bytes)
    → (match_prefixes ps path ≡ true) ↔ Admits Covers ps path
unfolding match_prefixes
match_prefixes-Admits [] path = ((λ h. tt), (λ u. refl))
match_prefixes-Admits (p ∷ ps) none = ((λ h. cc h), (λ u. absurd u))
match_prefixes-Admits (p ∷ ps) (some path) =
    any-Lists Covers (segment_prefix path) path
      (λ p. (segment_prefix-Covers path p, Covers-segment_prefix path p)) (p ∷ ps)
