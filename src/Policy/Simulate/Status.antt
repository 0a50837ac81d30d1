-- ===== src/Policy/Simulate/Status.antt =====
-- policy/simulate.go: statusFor against a description of the whole list of risks.
use crawlledger.Policy.Simulate.Risks.{
  Risk, SimulationStatus, safe, requires_ack, blocked, analysis_only, is_analysis_only, status_from,
  status_for,
}
use crawlledger.Base.{
  ◌≡◌, Bool, true, false, not, ◌&&◌, ◌||◌, List, [], ◌∷◌, arith, ◌==◌, if◌then◌else◌, length, any,
  nat_key, bytes_key,
}

-- A risk that nobody can acknowledge; those of a cache do not count.
abbrev pub blocks : Risk → Bool
blocks r = not r.acknowledgeable && not (is_analysis_only r)

-- The status as a description of all the risks.
abbrev pub described : List Risk → SimulationStatus
described rs =
    if any blocks rs
    then blocked
    else if any is_analysis_only rs
    then analysis_only
    else if length rs == 0
    then safe
    else requires_ack

status_from_acknowledged :
    (analysis : Bool) (rs : List Risk)
    → status_from requires_ack analysis rs ≡ (
        if any blocks rs
        then blocked
        else if analysis || any is_analysis_only rs
        then analysis_only
        else requires_ack)
unfolding status_from
status_from_acknowledged analysis [] = ground arith
status_from_acknowledged analysis (r ∷ rs) =
    let known = status_from_acknowledged true rs in
    let same = status_from_acknowledged analysis rs in ground arith

status_from_safe :
    (analysis : Bool) (rs : List Risk)
    → status_from safe analysis rs ≡ (
        if any blocks rs
        then blocked
        else if analysis || any is_analysis_only rs
        then analysis_only
        else if length rs == 0
        then safe
        else requires_ack)
unfolding status_from
status_from_safe analysis [] = ground arith
status_from_safe analysis (r ∷ rs) =
    let known = status_from_safe true rs in
    let same = status_from_acknowledged analysis rs in ground arith

-- The status is blocked exactly if a risk can not be acknowledged and is not that of a cache; else
-- it is analysis only if there is a cache, safe if there is no risk, and asks for an acknowledgement
-- if there are others.
pub status_for-described : (rs : List Risk) → status_for rs ≡ described rs
unfolding status_for
status_for-described rs = status_from_safe false rs
