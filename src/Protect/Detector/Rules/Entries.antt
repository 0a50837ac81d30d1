-- ===== src/Protect/Detector/Rules/Entries.antt =====
-- The entries of the map of rules in `updateRules`.
use crawlledger.Protect.State.{Rule}
use crawlledger.Protect.Detector.Types.{action_key}
use crawlledger.Protect.Detector.Rules.{is_refreshed, rules_by_key, expire}
use crawlledger.Base.{
  ℕ, ◌+◌, ◌≤◌, ◌<◌, ◌≡◌, refl, ◌∙◌, inl, inr, true, false, not, ◌&&◌, some, List, [], ◌∷◌, arith,
  leb, Bool-cases, length, All, Bytes, bytes_eq, bytes_eq_refl, Assoc, lookup, insert,
  lookup-insert, length-insert, IsDistinct, insert-IsDistinct, All-insert, nat_key, bytes_key,
}

abbrev pub AllRules : (Bytes → Rule → Type 0) → Assoc Bytes Rule → Type 0
AllRules P m = All (λ (entry : Bytes × Rule). P entry.0 entry.1) m

abbrev pub IsKnown : Bytes → Assoc Bytes Rule → Type 0
IsKnown key m = (r : Rule) × (lookup key m ≡ some r)

insert-IsKnown :
    (key k : Bytes) (r : Rule) (m : Assoc Bytes Rule) → IsKnown k m → IsKnown k (insert key r m)
insert-IsKnown key k r m (old, h) = elim (Bool-cases (bytes_eq key k)) [
  | inl same ↦ (r, lookup-insert key k r m ∙ rw same refl)
  | inr other ↦ (old, lookup-insert key k r m ∙ rw other h)
]

pub All_insert-IsKnown :
    (key : Bytes) (r : Rule) (m entries : Assoc Bytes Rule)
    → AllRules (λ k w. IsKnown k m) entries
    → AllRules (λ k w. IsKnown k (insert key r m)) entries
All_insert-IsKnown key r m [] h = tt
All_insert-IsKnown key r m ((k, w) ∷ entries) h =
    (insert-IsKnown key k r m h.0, All_insert-IsKnown key r m entries h.1)

IsKnown-weaken :
    (k : Bytes) (w : Rule) (entries m : Assoc Bytes Rule)
    → AllRules (λ j v. IsKnown j m) entries
    → AllRules (λ j v. IsKnown j ((k, w) ∷ m)) entries
IsKnown-weaken k w [] m h = tt
IsKnown-weaken k w ((j, v) ∷ entries) m h = (known j h.0, IsKnown-weaken k w entries m h.1)
  where
    known : (j : Bytes) → IsKnown j m → IsKnown j ((k, w) ∷ m)
    known j (r, e) = elim (Bool-cases (bytes_eq k j)) [
      | inl same ↦ (w, (unfold lookup in rw same refl))
      | inr other ↦ (r, (unfold lookup in rw other e))
    ]

pub all-IsKnown : (m : Assoc Bytes Rule) → AllRules (λ k w. IsKnown k m) m
unfolding lookup
all-IsKnown [] = tt
all-IsKnown ((k, w) ∷ m) = ((w, rw bytes_eq_refl refl), IsKnown-weaken k w m m (all-IsKnown m))

pub rules_by_key-IsDistinct :
    (rs : List Rule) (m : Assoc Bytes Rule) → IsDistinct m → IsDistinct (rules_by_key rs m)
unfolding rules_by_key
rules_by_key-IsDistinct [] m h = h
rules_by_key-IsDistinct (r ∷ rs) m h =
    rules_by_key-IsDistinct rs _ (insert-IsDistinct (action_key r.method r.path_prefix) r m h)

pub length-rules_by_key :
    (rs : List Rule) (m : Assoc Bytes Rule) → length (rules_by_key rs m) ≤ length rs + length m
unfolding rules_by_key
length-rules_by_key [] m = omega arith
length-rules_by_key (r ∷ rs) m =
    let key = action_key r.method r.path_prefix in
    omega (arith, length-rules_by_key rs (insert key r m), length-insert key r m)

pub vacuous :
    (expires_us : ℕ) (m : Assoc Bytes Rule)
    → AllRules (λ k r. is_refreshed k [] ≡ true → r.expires_at_us ≡ expires_us) m
vacuous expires_us [] = tt
vacuous expires_us ((k, r) ∷ m) = ((λ h. cc h), vacuous expires_us m)

pub length-expire :
    (evaluation_us : ℕ) (keys : List Bytes) (m : Assoc Bytes Rule)
    → length (expire evaluation_us keys m).0 ≤ length m
unfolding expire
length-expire evaluation_us keys [] = omega arith
length-expire evaluation_us keys ((k, r) ∷ m) = ground (arith, length-expire evaluation_us keys m)

pub expire-unexpired :
    (evaluation_us expires_us : ℕ) (keys : List Bytes) (m : Assoc Bytes Rule)
    → evaluation_us < expires_us
    → AllRules (λ k r. is_refreshed k keys ≡ true → r.expires_at_us ≡ expires_us) m
    → All (λ r. evaluation_us < r.expires_at_us) (expire evaluation_us keys m).0
unfolding expire
expire-unexpired evaluation_us expires_us keys [] h a = tt
expire-unexpired evaluation_us expires_us keys ((k, r) ∷ m) h a =
    let rest = expire-unexpired evaluation_us expires_us keys m h a.1 in
    elim (Bool-cases (leb r.expires_at_us evaluation_us && not (is_refreshed k keys))) [
      | inl gone ↦ rw gone rest
      | inr kept ↦ rw kept (stays kept a.0, rest)
    ]
  where
    stays :
        (leb r.expires_at_us evaluation_us && not (is_refreshed k keys)) ≡ false
        → (is_refreshed k keys ≡ true → r.expires_at_us ≡ expires_us)
        → evaluation_us < r.expires_at_us
    stays kept new = elim (Bool-cases (is_refreshed k keys)) [
      | inl marked ↦ let e = new marked in omega arith
      | inr plain ↦ let late = rw plain at kept in ground arith
    ]

pub All-expire :
    (P : Rule → Type 0) (evaluation_us : ℕ) (keys : List Bytes) (m : Assoc Bytes Rule)
    → AllRules (λ k r. P r) m
    → All P (expire evaluation_us keys m).0
unfolding expire
All-expire P evaluation_us keys [] a = tt
All-expire P evaluation_us keys ((k, r) ∷ m) a =
    let rest = All-expire P evaluation_us keys m a.1 in
    elim (Bool-cases (leb r.expires_at_us evaluation_us && not (is_refreshed k keys))) [
      | inl gone ↦ rw gone rest
      | inr kept ↦ rw kept (a.0, rest)
    ]

pub All-rules_by_key :
    (P : Rule → Type 0) (rs : List Rule) (m : Assoc Bytes Rule)
    → IsDistinct m
    → All P rs
    → AllRules (λ k r. P r) m
    → AllRules (λ k r. P r) (rules_by_key rs m)
unfolding rules_by_key
All-rules_by_key P [] m d a b = b
All-rules_by_key P (r ∷ rs) m d a b =
    let key = action_key r.method r.path_prefix in
    All-rules_by_key P rs (insert key r m) (insert-IsDistinct key r m d) a.1
      (All-insert (λ k w. P w) (λ k w. P w) key r m d (λ j w other p. p) a.0 b)
