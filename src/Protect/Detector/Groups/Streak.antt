-- ===== src/Protect/Detector/Groups/Streak.antt =====
-- `evaluateGroups` for one group over a history of evaluations: when it is proposed for a rule.
use crawlledger.Protect.Config.{Config}
use crawlledger.Protect.Detector.Types.{Metrics, TrackedGroup}
use crawlledger.Protect.Detector.Groups.{
  GroupThresholds, Qualification, qualification_of, Verdict, decide_group,
}
use crawlledger.Base.{
  ℕ, zero, suc, ◌+◌, ◌<◌, ◌≡◌, refl, ◌∙◌, inl, inr, Bool, true, false, not, ◌&&◌, ◌||◌, List, [],
  ◌∷◌, arith, ltb, leb, if◌then◌else◌, Bool-cases, nat_key, bytes_key,
}

-- What an evaluation brings to a group: whether rules may be started, what the records before it have
-- made of the group's mark of being unsafe, and how the group was judged.
pub record Judgement : Type 0 where
  pub allowed : Bool
  pub unsafe : Bool
  pub qualified : Bool
  pub site_requests : ℕ
  pub metrics : Metrics
  pub thresholds : GroupThresholds

-- The verdict on a group as the evaluation finds it.
unfoldable pub verdict_on : Config → TrackedGroup → Judgement → Verdict
verdict_on c g j =
    decide_group c j.allowed j.site_requests (record g { unsafe = j.unsafe }) j.metrics j.qualified
      j.thresholds

-- The group after a history of evaluations, the latest first.
unfoldable pub group_after : Config → TrackedGroup → List Judgement → TrackedGroup
unfolding verdict_on
group_after c g [] = g
group_after c g (j ∷ earlier) = (verdict_on c (group_after c g earlier) j).group

abbrev pub passes : Judgement → Bool
passes j = j.allowed && (j.qualified && not j.unsafe)

-- The first so many of the history, which are the latest, are there and pass.
abbrev pub all_pass : ℕ → List Judgement → Bool
all_pass zero history = true
all_pass (suc n) [] = false
all_pass (suc n) (j ∷ earlier) = passes j && all_pass n earlier

consecutive_cases :
    (c : Config) (g : TrackedGroup) (j : Judgement)
    → (verdict_on c g j).group.consecutive ≡ (if passes j then g.consecutive + 1 else 0)
unfolding verdict_on decide_group
consecutive_cases c g j = ground arith

-- The counter tells how many of the latest evaluations pass.
consecutive-all_pass :
    (c : Config) (g : TrackedGroup) (n : ℕ) (history : List Judgement)
    → g.consecutive ≡ 0
    → leb n (group_after c g history).consecutive ≡ all_pass n history
unfolding group_after
consecutive-all_pass c g zero history h = ground arith
consecutive-all_pass c g (suc n) [] h = ground arith
consecutive-all_pass c g (suc n) (j ∷ earlier) h =
    let counted = consecutive_cases c (group_after c g earlier) j in
    let before = consecutive-all_pass c g n earlier h in ground arith

proposal_cases :
    (c : Config) (g : TrackedGroup) (j : Judgement)
    → 0 < c.detection.required_consecutive_evaluations
    → (verdict_on c g j).qualifications ≡ (
        if leb c.detection.required_consecutive_evaluations (verdict_on c g j).group.consecutive
        then qualification_of g j.thresholds ∷ []
        else [])
unfolding verdict_on decide_group crawlledger.Protect.Detector.Groups.detector_reason
proposal_cases c g j h = elim (Bool-cases (not j.allowed || not j.qualified || j.unsafe)) [
  | inl stopped ↦
      let none_required : leb c.detection.required_consecutive_evaluations 0 ≡ false =
        ground arith in
      rw (stopped, none_required) refl
  | inr passed ↦
      let required = c.detection.required_consecutive_evaluations in
      elim (Bool-cases (ltb (g.consecutive + 1) required)) [
        | inl few ↦
            let short : leb required (g.consecutive + 1) ≡ false = ground arith in
            rw (passed, few, short) refl
        | inr enough ↦
            let reached : leb required (g.consecutive + 1) ≡ true = ground arith in
            rw (passed, enough, reached) refl
      ]
]

verdict_on-names :
    (c : Config) (g : TrackedGroup) (j : Judgement) (t : GroupThresholds)
    → qualification_of (verdict_on c g j).group t ≡ qualification_of g t
unfolding verdict_on decide_group crawlledger.Protect.Detector.Groups.detector_reason
verdict_on-names c g j t = elim (Bool-cases (not j.allowed || not j.qualified || j.unsafe)) [
  | inl stopped ↦ rw stopped refl
  | inr passed ↦ rw passed refl
]

group_after-names :
    (c : Config) (g : TrackedGroup) (t : GroupThresholds) (history : List Judgement)
    → qualification_of (group_after c g history) t ≡ qualification_of g t
unfolding group_after
group_after-names c g t [] = refl
group_after-names c g t (j ∷ earlier) =
    verdict_on-names c (group_after c g earlier) j t ∙ group_after-names c g t earlier

-- Through any history of evaluations of a group that starts uncounted, where the settings require at
-- least one: the group is proposed for a rule at the latest evaluation, for its own method and path
-- and with the threshold of that evaluation, exactly if in as many of the latest evaluations as the
-- settings require rules might be started, the group qualified and was safe.
pub decide_group-all_pass :
    (c : Config) (g : TrackedGroup) (j : Judgement) (earlier : List Judgement)
    → g.consecutive ≡ 0
    → 0 < c.detection.required_consecutive_evaluations
    → (verdict_on c (group_after c g earlier) j).qualifications ≡ (
        if all_pass c.detection.required_consecutive_evaluations (j ∷ earlier)
        then qualification_of g j.thresholds ∷ []
        else [])
unfolding group_after
decide_group-all_pass c g j earlier h k =
    let before = group_after c g earlier in
    let streak =
      consecutive-all_pass c g c.detection.required_consecutive_evaluations (j ∷ earlier) h in
    rw (proposal_cases c before j k, streak, group_after-names c g j.thresholds earlier) refl
