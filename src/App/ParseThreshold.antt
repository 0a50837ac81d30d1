-- ===== src/App/ParseThreshold.antt =====
-- internal/app/parse_threshold.go: when too many records of an input are rejected.
use crawlledger.Base.{
  ℕ, ◌+◌, ◌-◌, ◌*◌, ◌/◌, ◌%◌, max, ◌≡◌, Bool, true, false, arith, ltb, leb, if◌then◌else◌,
}

unfoldable pub parse_limit_exceeded : ℕ → ℕ → Bool → Bool
parse_limit_exceeded total rejected true =
    let limit = total / 1000 in ltb (if ltb limit 100 then 100 else limit) rejected
parse_limit_exceeded total rejected false =
    if ltb total 10000
    then ltb 100 rejected
    else leb (total / 1000000 * 50001 + (total % 1000000 * 50001 + 1000000 - 1) / 1000000) rejected

-- While reading, from the ten thousandth record on, the split quotient decides exactly whether
-- the rejected share is at least 5.0001%; before that, and at the end, the limits are 100
-- records and a tenth of a percent.
pub parse_limit_exceeded-exact :
    (total rejected : ℕ) (final : Bool)
    → parse_limit_exceeded total rejected final ≡ (
        if final
        then ltb (max 100 (total / 1000)) rejected
        else if ltb total 10000
        then ltb 100 rejected
        else leb (total * 50001) (rejected * 1000000))
unfolding parse_limit_exceeded
parse_limit_exceeded-exact total rejected true = ground arith
parse_limit_exceeded-exact total rejected false = ground arith
