-- ===== src/Aggregate/MapKeys.antt =====
-- internal/aggregate/aggregator.go: the keys of the aggregator's maps.
use crawlledger.Domain.Event.{
  TrafficClass, claimed_ai_crawler, claimed_search_crawler, claimed_other_crawler, security_probe,
  unclassified, CacheState, hit, miss, bypass, expired, stale, unknown,
}
use crawlledger.Base.{
  ℕ, ◌≡◌, refl, sym, ap, ◌∙◌, ◌↔◌, Bool, true, ◌&&◌, arith, ◌==◌, if◌then◌else◌, ==_iff, Bytes, Key,
  nat_key, bytes_key,
}

-- A pair of keys is a key.
module _ {A B : Type 0} ⦃a : Key A⦄ ⦃b : Key B⦄ where
  abbrev pub pair_same : A × B → A × B → Bool
  pair_same (x, y) (u, v) = a.same x u && b.same y v

  pub pair_same_iff : (p q : A × B) → (pair_same p q ≡ true) ↔ (p ≡ q)
  pair_same_iff (x, y) (u, v) = (
    (λ h.
        let e = (a.same_iff x u).0 (ground arith) in
        let f = (b.same_iff y v).0 (ground arith) in cc (e, f)),
    (λ e.
        let f = (a.same_iff x u).1 (ap (λ (p : A × B). p.0) e) in
        let g = (b.same_iff y v).1 (ap (λ (p : A × B). p.1) e) in rw (f, g) refl),
  )

  instance abbrev pub pair_key : Key (A × B)
  pair_key = record { same = pair_same; same_iff = pair_same_iff }

class_code : TrafficClass → ℕ
class_code claimed_ai_crawler = 0
class_code claimed_search_crawler = 1
class_code claimed_other_crawler = 2
class_code security_probe = 3
class_code unclassified = 4

class_of : ℕ → TrafficClass
class_of n =
    if n == 0
    then claimed_ai_crawler
    else if n == 1
    then claimed_search_crawler
    else if n == 2
    then claimed_other_crawler
    else if n == 3
    then security_probe
    else unclassified

class_of-class_code : (c : TrafficClass) → class_of (class_code c) ≡ c
unfolding class_of class_code
class_of-class_code claimed_ai_crawler = refl
class_of-class_code claimed_search_crawler = refl
class_of-class_code claimed_other_crawler = refl
class_of-class_code security_probe = refl
class_of-class_code unclassified = refl

unfoldable pub class_same : TrafficClass → TrafficClass → Bool
unfolding class_code
class_same a b = class_code a == class_code b

pub class_same_iff : (a b : TrafficClass) → (class_same a b ≡ true) ↔ (a ≡ b)
unfolding class_same
class_same_iff a b = (
  (λ h.
      let e = (==_iff (class_code a) (class_code b)).0 h in
      sym (class_of-class_code a) ∙ (ap class_of e ∙ class_of-class_code b)),
  (λ e. (==_iff (class_code a) (class_code b)).1 (ap class_code e)),
)

instance abbrev pub class_key : Key TrafficClass
class_key = record { same = class_same; same_iff = class_same_iff }

cache_code : CacheState → ℕ
cache_code hit = 0
cache_code miss = 1
cache_code bypass = 2
cache_code expired = 3
cache_code stale = 4
cache_code unknown = 5

cache_of : ℕ → CacheState
cache_of n =
    if n == 0
    then hit
    else if n == 1
    then miss
    else if n == 2
    then bypass
    else if n == 3
    then expired
    else if n == 4
    then stale
    else unknown

cache_of-cache_code : (c : CacheState) → cache_of (cache_code c) ≡ c
unfolding cache_of cache_code
cache_of-cache_code hit = refl
cache_of-cache_code miss = refl
cache_of-cache_code bypass = refl
cache_of-cache_code expired = refl
cache_of-cache_code stale = refl
cache_of-cache_code unknown = refl

unfoldable pub cache_same : CacheState → CacheState → Bool
unfolding cache_code
cache_same a b = cache_code a == cache_code b

pub cache_same_iff : (a b : CacheState) → (cache_same a b ≡ true) ↔ (a ≡ b)
unfolding cache_same
cache_same_iff a b = (
  (λ h.
      let e = (==_iff (cache_code a) (cache_code b)).0 h in
      sym (cache_of-cache_code a) ∙ (ap cache_of e ∙ cache_of-cache_code b)),
  (λ e. (==_iff (cache_code a) (cache_code b)).1 (ap cache_code e)),
)

instance abbrev pub cache_key : Key CacheState
cache_key = record { same = cache_same; same_iff = cache_same_iff }

-- The minute, the route, the user agent, the class, the method, the status and the cache state.
abbrev pub CellKey : Type 0
CellKey = ℕ × (ℕ × (ℕ × (TrafficClass × (Bytes × (ℕ × CacheState)))))

abbrev pub SubjectKey : Type 0
SubjectKey = Bytes × ℕ

abbrev pub RateImpactKey : Type 0
RateImpactKey = ℕ × (TrafficClass × Bytes)
