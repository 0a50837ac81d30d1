-- ===== src/Aggregate/Sketch/Estimate.antt =====
-- The bounds of the estimates of a sketch.
use crawlledger.Aggregate.Sketch.{Sketch, kmv_k, estimate, conservative}
use crawlledger.Base.{
  ℕ, ◌*◌, ◌/◌, ◌≤◌, ◌≡◌, inl, inr, arith, ltb, if◌then◌else◌, Bool-cases, length,
}

-- For a sketch of at most as many values as there are requests, the estimate never exceeds the
-- number of requests, and the conservative count never exceeds the estimate.
pub conservative_bounds :
    (s : Sketch) (total : ℕ)
    → length s.values ≤ total
    → (conservative s total ≤ estimate s total) × (estimate s total ≤ total)
unfolding conservative
conservative_bounds s total h = ground arith

-- From 64 values on, the conservative count is 61.9% of the estimate, rounded down, though it is
-- computed in two parts; below that it is the number of values.
pub conservative-floor :
    (s : Sketch) (total : ℕ)
    → conservative s total
      ≡ (if ltb (length s.values) 64 then length s.values else estimate s total * 619 / 1000)
unfolding conservative
conservative-floor s total = elim (Bool-cases (ltb (length s.values) kmv_k)) [
  | inl few ↦ (unfold estimate in rw few)
  | inr full ↦ rw full (omega arith)
]
