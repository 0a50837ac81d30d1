-- ===== src/Cost/Rounding.antt =====
-- How the amounts are rounded and added.
use native.Mathlib.Nat.{div-add-mod', mod-lt}
use crawlledger.Cost.{
  CostError, result_overflow, Inputs, CostAllocation, rounded_fraction, window_seconds, total_of,
  allocate, calculate, egress_of, hosting_of,
}
use crawlledger.Base.{
  ℕ, ◌+◌, ◌-◌, ◌*◌, ◌/◌, ◌%◌, ◌≤◌, ◌<◌, max, ◌≡◌, inl, inr, false, Option, none, some, arith, leb,
  ◌==◌, if◌then◌else◌, leb→le, Bool-cases, Result, ok, err, >>=-eq-ok, max_int64, nat_key,
  bytes_key,
}

-- The nearest whole number to a fraction, a half rounded up, if it is an int64.
pub record IsRounded (n d : ℕ) (result : Result CostError ℕ) : Type 0 where
  pub nearest : ℕ
  pub above : 2 * n < 2 * (nearest * d) + d
  pub below : 2 * (nearest * d) ≤ 2 * n + d
  pub returned : result ≡ (if leb nearest max_int64 then ok nearest else err result_overflow)

suc_times : (q d : ℕ) → (q + 1) * d ≡ q * d + d
suc_times q d = omega arith

-- A fraction with a denominator is the nearest whole number, a half rounded up, and it is refused
-- exactly when that passes the largest int64.
pub rounded_fraction-nearest : (n d : ℕ) → 0 < d → IsRounded n d (rounded_fraction n d)
unfolding rounded_fraction
rounded_fraction-nearest n d h =
    let split = div-add-mod' n d in
    let small = mod-lt n h in
    let more = suc_times (n / d) d in
    let some_d : (d == 0) ≡ false = ground arith in
    elim (Bool-cases (leb d (2 * (n % d)))) [
      | inl up ↦ record {
        nearest = n / d + 1;
        above = omega arith;
        below = let half = leb→le d (2 * (n % d)) up in omega arith;
        returned = rw (some_d, up) (ground arith);
      }
      | inr down ↦ record {
        nearest = n / d;
        above = let half : 2 * (n % d) < d = ground arith in omega arith;
        below = omega arith;
        returned = rw (some_d, down) (ground arith);
      }
    ]

-- The window lasts its length in whole seconds, rounded up, and at least one.
pub window_seconds-exact :
    (first last : ℕ) → window_seconds first last ≡ max 1 ((last - first + 999999) / 1000000)
unfolding window_seconds
window_seconds-exact first last = ground arith

abbrev or_none : Option ℕ → ℕ
or_none none = 0
or_none (some n) = n

abbrev pub sum_of : Option ℕ → Option ℕ → Option ℕ
sum_of none b = b
sum_of (some a) b = some (a + or_none b)

total_of-sum : (a b t : Option ℕ) → total_of a b ≡ ok t → t ≡ sum_of a b
unfolding total_of
total_of-sum none none t h = ground arith
total_of-sum (some a) none t h = ground arith
total_of-sum none (some b) t h = ground arith
total_of-sum (some a) (some b) t h = ground arith

allocate-total :
    (i : Inputs) (c : CostAllocation)
    → allocate i ≡ ok c
    → c.total_allocated_kopecks ≡ sum_of c.egress_kopecks c.allocated_hosting_kopecks
unfolding allocate
allocate-total i c h =
    let (egress, e, rest) = >>=-eq-ok (egress_of i.bytes_sent i.egress_kopecks_per_gib) _ h in
    let seconds = window_seconds i.first_event_us i.last_event_us in
    let (hosting, k, more) =
      >>=-eq-ok
        (hosting_of i.monthly_hosting_kopecks i.upstream_coverage_ppm seconds i.upstream_us
          i.upstream_us)
        _ rest in
    let (total, l, made) = >>=-eq-ok (total_of egress hosting) _ more in
    let sum = total_of-sum egress hosting total l in ground arith

-- An allocation that is returned adds up: its total is there exactly when one of its parts is,
-- and it is the sum of the parts that are there.
pub calculate-total :
    (i : Inputs) (c : CostAllocation)
    → calculate i ≡ ok c
    → c.total_allocated_kopecks ≡ sum_of c.egress_kopecks c.allocated_hosting_kopecks
unfolding calculate
calculate-total i c h = ground (arith, allocate-total i c)
