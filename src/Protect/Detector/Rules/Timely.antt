-- ===== src/Protect/Detector/Rules/Timely.antt =====
-- What the two loops of `updateRules` that write rules keep.
use crawlledger.Protect.State.{Rule}
use crawlledger.Protect.Detector.Buckets.{sum_counts}
use crawlledger.Protect.Detector.Types.{DetectorEvent, refreshed, Detector}
use crawlledger.Protect.Detector.Observe.{or_no_buckets}
use crawlledger.Protect.Detector.Rules.{
  Proposal, Proposals, Progress, qualify, rule_event, is_refreshed, write_rule, activate,
  activate_all, refresh_entry, refresh_all,
}
use crawlledger.Protect.Detector.Rules.Entries.{AllRules, IsKnown, All_insert-IsKnown}
use crawlledger.Base.{
  ℕ, ◌≤◌, ◌<◌, ◌≡◌, refl, sym, ◌⊎◌, inl, inr, true, false, Option, none, some, [], ◌∷◌, arith, ltb,
  leb, Bool-cases, ok, >>=-eq-ok, length, Bytes, bytes, bytes_eq, bytes_eq_iff, Assoc, lookup,
  insert, length-insert, length-insert_known, IsDistinct, insert-IsDistinct, All-insert, nat_key,
  bytes_key,
}

-- What the loops keep: distinct keys, a bound on the number of rules, and that a rule that has
-- been refreshed expires at the new time.
pub record IsTimely (limit expires_us : ℕ) (g : Progress) : Type 0 where
  pub distinct : IsDistinct g.rules
  pub bounded : length g.rules ≤ limit
  pub renewed :
      AllRules
        (λ k r. is_refreshed k g.refreshed_keys ≡ true → r.expires_at_us ≡ expires_us)
        g.rules

module _ (limit expires_us : ℕ) where
  write_rule-IsTimely :
      (key : Bytes) (r : Rule) (event : DetectorEvent) (g : Progress)
      → r.expires_at_us ≡ expires_us
      → length (insert key r g.rules) ≤ limit
      → IsTimely limit expires_us g
      → IsTimely limit expires_us (write_rule key r event g)
  write_rule-IsTimely key r event g h bound t = record {
    distinct = insert-IsDistinct key r g.rules t.distinct;
    bounded = bound;
    renewed =
        All-insert (λ k w. is_refreshed k g.refreshed_keys ≡ true → w.expires_at_us ≡ expires_us)
          (λ k w. is_refreshed k (key ∷ g.refreshed_keys) ≡ true → w.expires_at_us ≡ expires_us) key
          r g.rules t.distinct (λ j w other p marked. p (earlier j other marked)) (λ marked. h)
          t.renewed;
  }
    where
      earlier :
          (j : Bytes)
          → bytes_eq key j ≡ false
          → is_refreshed j (key ∷ g.refreshed_keys) ≡ true
          → is_refreshed j g.refreshed_keys ≡ true
      earlier j other marked = ground (arith, bytes_eq_iff key j, bytes_eq_iff j key)

  insert-bounded :
      (key : Bytes) (r : Rule) (m : Assoc Bytes Rule)
      → length m < limit
      → length (insert key r m) ≤ limit
  insert-bounded key r m h = omega (arith, length-insert key r m)

  insert-bounded_known :
      (key : Bytes) (r : Rule) (m : Assoc Bytes Rule)
      → IsKnown key m
      → length m ≤ limit
      → length (insert key r m) ≤ limit
  insert-bounded_known key r m (old, e) h = omega (arith, length-insert_known key r old m e)

  activate-IsTimely :
      (evaluation_us : ℕ) (entry : Bytes × Proposal) (g : Progress)
      → IsTimely limit expires_us g
      → IsTimely limit expires_us (activate limit evaluation_us expires_us entry g)
  unfolding activate
  activate-IsTimely evaluation_us (key, p) g t = with_lookup (lookup key g.rules) refl
    where
      with_lookup :
          (o : Option Rule)
          → lookup key g.rules ≡ o
          → IsTimely limit expires_us (activate limit evaluation_us expires_us (key, p) g)
      with_lookup none e = elim (Bool-cases (leb limit (length g.rules))) [
        | inl full ↦
            rw (e, full, activate)
              (record { distinct = t.distinct; bounded = t.bounded; renewed = t.renewed })
        | inr room ↦
            rw (e, room, activate)
              (write_rule-IsTimely key _ _ g refl (insert-bounded key _ g.rules (ground arith)) t)
      ]
      with_lookup (some old) e =
          rw (e, activate)
            (write_rule-IsTimely key _ _ g refl
              (insert-bounded_known key _ g.rules (old, e) t.bounded) t)

  pub activate_all-IsTimely :
      (evaluation_us : ℕ) (ps : Proposals) (g : Progress)
      → IsTimely limit expires_us g
      → IsTimely limit expires_us (activate_all limit evaluation_us expires_us ps g)
  unfolding activate_all
  activate_all-IsTimely evaluation_us [] g t = t
  activate_all-IsTimely evaluation_us (p ∷ ps) g t =
      activate_all-IsTimely evaluation_us ps _ (activate-IsTimely evaluation_us p g t)

  -- A round of the refresh either changes nothing or writes the visited rule again.
  refresh_entry-ok :
      (d : Detector) (evaluation_us : ℕ) (key : Bytes) (r : Rule) (g h : Progress)
      → refresh_entry d evaluation_us expires_us (key, r) g ≡ ok h
      → (h ≡ g)
        ⊎ ((w : Rule) × (event : DetectorEvent) × (w.expires_at_us ≡ expires_us)
            × (h ≡ write_rule key w event g))
  unfolding refresh_entry
  refresh_entry-ok d evaluation_us key r g h k =
      elim (Bool-cases (is_refreshed key g.refreshed_keys)) [
        | inl marked ↦ inl (sym (ground arith))
        | inr waiting ↦
            with_sum waiting (sum_counts (or_no_buckets (lookup key d.attempt_buckets))) refl
      ]
    where
      with_sum :
          is_refreshed key g.refreshed_keys ≡ false
          → (o : Option ℕ) → sum_counts (or_no_buckets (lookup key d.attempt_buckets)) ≡ o
          → (h ≡ g)
            ⊎ ((w : Rule) × (event : DetectorEvent) × (w.expires_at_us ≡ expires_us)
                × (h ≡ write_rule key w event g))
      with_sum waiting none e = cc (rw (waiting, e, refresh_entry) at k)
      with_sum waiting (some n) e = elim (Bool-cases (ltb n r.request_threshold)) [
        | inl few ↦ let same = rw (waiting, e, few, refresh_entry) at k in inl (cc same)
        | inr many ↦
            let event : DetectorEvent = record (rule_event refreshed r expires_us) {
              detector = bytes "active-attempts";
              requests = n;
            } in
            let written = rw (waiting, e, many, refresh_entry) at k in
            inr (qualify r evaluation_us expires_us, event, refl, cc written)
      ]

  pub refresh_all-IsTimely :
      (d : Detector) (evaluation_us : ℕ) (entries : Assoc Bytes Rule) (g h : Progress)
      → refresh_all d evaluation_us expires_us entries g ≡ ok h
      → AllRules (λ k w. IsKnown k g.rules) entries
      → IsTimely limit expires_us g
      → IsTimely limit expires_us h
  unfolding refresh_all
  refresh_all-IsTimely d evaluation_us [] g h e known t = let same : h ≡ g = cc e in rw same t
  refresh_all-IsTimely d evaluation_us ((key, r) ∷ rest) g h e known t =
      let (m, first, others) =
        >>=-eq-ok (refresh_entry d evaluation_us expires_us (key, r) g) _ e in
      elim (refresh_entry-ok d evaluation_us key r g m first) [
        | inl same ↦ refresh_all-IsTimely d evaluation_us rest g h (rw same at others) known.1 t
        | inr (w, event, new, written) ↦
            refresh_all-IsTimely d evaluation_us rest (write_rule key w event g) h
              (rw written at others) (All_insert-IsKnown key w g.rules rest known.1)
              (write_rule-IsTimely key w event g new
                (insert-bounded_known key w g.rules known.0 t.bounded) t)
      ]
