-- ===== src/Protect/Detector/Accounting.antt =====
-- `ClassifyAccounting` and `validObservedStatus`: what one access log record counts for.
use crawlledger.Base.{
  ℕ, ◌≡◌, Bool, true, false, not, ◌&&◌, ◌||◌, [], ◌∷◌, arith, ltb, ◌==◌, if◌then◌else◌, any, Bytes,
  bytes, bytes_eq, bytes_eq_iff, nat_key, bytes_key,
}

pub record Accounting : Type 0 where
  pub denominator : Bool
  pub candidate : Bool
  pub refresh : Bool

unfoldable pub classify_accounting : ℕ → Bytes → Accounting
classify_accounting status limiter =
    let eligible = not (status == 403) && not (status == 429) in
    if bytes_eq limiter (bytes "REJECTED")
    then record { denominator = false; candidate = false; refresh = status == 429 }
    else if bytes_eq limiter (bytes "DELAYED_DRY_RUN")
        || bytes_eq limiter (bytes "REJECTED_DRY_RUN")
    then record { denominator = true; candidate = eligible; refresh = false }
    else record { denominator = true; candidate = eligible; refresh = eligible }

unfoldable pub valid_observed_status : ℕ → Bytes → Bool
valid_observed_status status limiter =
    if ltb status 100 || ltb 599 status
    then false
    else if any (bytes_eq limiter) (
        bytes ""
        ∷ bytes "-"
        ∷ bytes "PASSED"
        ∷ bytes "DELAYED"
        ∷ bytes "DELAYED_DRY_RUN"
        ∷ bytes "REJECTED_DRY_RUN"
        ∷ [])
    then true
    else bytes_eq limiter (bytes "REJECTED") && status == 429

rejected_status :
    (status : ℕ) → valid_observed_status status (bytes "REJECTED") ≡ true → status ≡ 429
unfolding valid_observed_status bytes_eq
rejected_status status h = ground arith

-- What a record with a status and a limiter's verdict counts for.
pub record CountsFor (status : ℕ) (limiter : Bytes) (a : Accounting) : Type 0 where
  pub limited :
      bytes_eq limiter (bytes "REJECTED") ≡ true
      → (a.denominator ≡ false) × (a.candidate ≡ false) × (a.refresh ≡ true) × (status ≡ 429)
  pub passed :
      bytes_eq limiter (bytes "REJECTED") ≡ false
      → (a.denominator ≡ true)
        × (a.candidate ≡ (not (status == 403) && not (status == 429)))
        × (a.refresh ≡ true → a.candidate ≡ true)

-- For a record that passes the status test: a request that the limiter itself rejected refreshes
-- a rule and is counted nowhere else; any other request is counted in the denominator; and neither
-- a 403 nor a 429 that the limiter did not cause is ever a candidate or a refresh.
pub classify_accounting-valid :
    (status : ℕ) (limiter : Bytes)
    → valid_observed_status status limiter ≡ true
    → CountsFor status limiter (classify_accounting status limiter)
unfolding classify_accounting valid_observed_status
classify_accounting-valid status limiter h =
    let rejected_only = λ (r : bytes_eq limiter (bytes "REJECTED") ≡ true).
      rejected_status status (rw ((bytes_eq_iff limiter (bytes "REJECTED")).0 r) at h) in
    record { limited = λ r. ground (arith, rejected_only r); passed = λ r. ground arith }
