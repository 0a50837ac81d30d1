-- ===== src/Protect/Detector/Groups/Verdicts.antt =====
-- When a group may start a rule.
use crawlledger.Protect.Config.{Config}
use crawlledger.Protect.Baseline.Series.{Baseline}
use crawlledger.Protect.Detector.Types.{TrackedGroup, Detector, DetectorError}
use crawlledger.Protect.Detector.Buckets.{sum_counts}
use crawlledger.Protect.Detector.Groups.{
  Verdict, Evaluated, decide_group, judge_group, evaluate_entries, evaluate_groups, key_less,
  prepend,
}
use crawlledger.Base.{
  ℕ, ◌≡◌, refl, false, Option, none, some, [], ◌∷◌, arith, Result, ok, err, All, Bytes, Assoc,
  sort_by, nat_key, bytes_key,
}

module _ (c : Config) (b : Baseline) (site : ℕ) where
  judge_group-not_allowed :
      (g : TrackedGroup) (v : Verdict)
      → judge_group c b false site g ≡ ok v
      → (v.qualifications ≡ []) × (v.group.consecutive ≡ 0)
  unfolding judge_group decide_group
  judge_group-not_allowed g v h = ground arith

  abbrev NothingStarts : Assoc Bytes TrackedGroup × Result DetectorError Evaluated → Type 0
  NothingStarts (groups, err e) = Unit
  NothingStarts (groups, ok r) =
      (r.qualifications ≡ []) × All (λ entry. entry.1.consecutive ≡ 0) groups

  prepend-nothing :
      (key : Bytes) (v : Verdict) (groups : Assoc Bytes TrackedGroup)
      (r : Result DetectorError Evaluated)
      → (v.qualifications ≡ []) × (v.group.consecutive ≡ 0)
      → NothingStarts (groups, r)
      → NothingStarts ((key, v.group) ∷ groups, prepend v r)
  unfolding prepend
  prepend-nothing key v groups (err e) h k = tt
  prepend-nothing key v groups (ok r) h k = ground (arith)

  evaluate_entries-not_allowed :
      (entries : Assoc Bytes TrackedGroup) → NothingStarts (evaluate_entries c b false site entries)
  unfolding evaluate_entries
  evaluate_entries-not_allowed [] = (refl, tt)
  evaluate_entries-not_allowed ((key, g) ∷ rest) =
      with_verdict (evaluate_entries-not_allowed rest) (judge_group c b false site g) refl
    where
      with_verdict :
          NothingStarts (evaluate_entries c b false site rest)
          → (v : Result DetectorError Verdict) → judge_group c b false site g ≡ v
          → NothingStarts (evaluate_entries c b false site ((key, g) ∷ rest))
      with_verdict next (err e) h = rw (h, evaluate_entries) tt
      with_verdict next (ok v) h =
          rw (h, evaluate_entries) (prepend-nothing key v _ _ (judge_group-not_allowed g v h) next)

-- While rules may not be started, an evaluation of the groups proposes no rule.
pub evaluate_groups-not_allowed :
    (d : Detector) (r : Evaluated) → (evaluate_groups d false).1 ≡ ok r → r.qualifications ≡ []
unfolding evaluate_groups
evaluate_groups-not_allowed d r h = with_sum (sum_counts d.site_buckets) refl
  where
    with_entries :
        (site : ℕ) (p : Assoc Bytes TrackedGroup × Result DetectorError Evaluated)
        → NothingStarts d.config d.baseline site p
        → p.1 ≡ ok r
        → r.qualifications ≡ []
    with_entries site (groups, err x) n k = cc
    with_entries site (groups, ok q) n k = ground (arith)

    with_sum : (o : Option ℕ) → sum_counts d.site_buckets ≡ o → r.qualifications ≡ []
    with_sum none k = cc (rw (k, evaluate_groups) at h)
    with_sum (some site) k =
        with_entries site _
          (evaluate_entries-not_allowed d.config d.baseline site (sort_by key_less d.groups))
          (rw (k, evaluate_groups) at h)
