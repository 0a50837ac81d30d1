-- ===== src/Protect/Detector/Health.antt =====
-- `recordHealth` and `SensorSuspended`: a ring of the last hundred records, and the number of
-- structure errors among them.
use native.Mathlib.Decide.{dec_le}
use crawlledger.Base.{
  ℕ, zero, suc, ◌+◌, ◌-◌, ◌%◌, ◌≤◌, ◌<◌, min, ◌≡◌, refl, ap, ◌∙◌, ◌≢◌, Bool, true, false, ◌&&◌,
  List, [], ◌∷◌, arith, ltb, leb, ◌==◌, if◌then◌else◌, ==_iff, length, set, get_or, take, replicate,
  length-set, get_or-set_self, get_or-set_ne, length-take_all,
}

pub record Health : Type 0 where
  pub ring : List Bool
  pub count : ℕ
  pub index : ℕ
  pub structure_errors : ℕ

abbrev pub healthy : Health
healthy = record { ring = replicate 100 false; count = 0; index = 0; structure_errors = 0 }

unfoldable pub record_health : Health → Bool → Health
record_health h structure_error =
    let full = h.count == length h.ring in
    let evicts = full && get_or h.ring h.index false in
    let kept = if evicts then h.structure_errors - 1 else h.structure_errors in
    record {
      ring = set h.ring h.index structure_error;
      count = if full then h.count else h.count + 1;
      index = (h.index + 1) % length h.ring;
      structure_errors = if structure_error then kept + 1 else kept;
    }

unfoldable pub sensor_suspended : Health → Bool
sensor_suspended h = h.count == length h.ring && ltb 10 h.structure_errors

-- The records of a history, given newest first.
unfoldable pub record_all : List Bool → Health
record_all [] = healthy
record_all (e ∷ older) = record_health (record_all older) e

pub count_true : List Bool → ℕ
count_true [] = 0
count_true (b ∷ bs) = (if b then 1 else 0) + count_true bs

-- The ring holds the last hundred records, the newest behind the index.
record Holds (history : List Bool) (h : Health) : Type 0 where
  size : length h.ring ≡ 100
  counted : h.count ≡ min 100 (length history)
  position : h.index ≡ length history % 100
  slots :
      (i : ℕ)
      → i < 100
      → i < length history
      → get_or h.ring ((length history - 1 - i) % 100) false ≡ get_or history i false
  errors : h.structure_errors ≡ count_true (take 100 history)

Holds-healthy : Holds [] healthy
unfolding count_true
Holds-healthy = record {
  size = refl;
  counted = omega arith;
  position = omega arith;
  slots = λ i a b. absurd (omega arith);
  errors = refl;
}

count_true-take :
    (n : ℕ) (e : Bool) (history : List Bool)
    → n < length history
    → count_true (take (suc n) (e ∷ history)) + (if get_or history n false then 1 else 0)
      ≡ count_true (take (suc n) history) + (if e then 1 else 0)
unfolding count_true
count_true-take n e [] h = absurd (omega arith)
count_true-take zero e (x ∷ history) h = ground arith
count_true-take (suc n) e (x ∷ history) h = ground (arith, count_true-take n x history)

count_true-pos :
    (n : ℕ) (history : List Bool)
    → n < length history
    → get_or history n false ≡ true
    → 0 < count_true (take (suc n) history)
unfolding count_true
count_true-pos n [] h g = absurd (omega arith)
count_true-pos zero (x ∷ history) h g = ground arith
count_true-pos (suc n) (x ∷ history) h g = ground (arith, count_true-pos n history)

-- One step of the count of a window that evicts `ev` and takes in `e`.
window_step :
    {c c' : ℕ} (ev e : Bool)
    → c' + (if ev then 1 else 0) ≡ c + (if e then 1 else 0)
    → (ev ≡ true → 0 < c)
    → (if e then (if ev then c - 1 else c) + 1 else (if ev then c - 1 else c)) ≡ c'
window_step true true h k = let p = k refl in omega arith
window_step true false h k = let p = k refl in omega arith
window_step false true h k = omega arith
window_step false false h k = omega arith

counted_step :
    {c size : ℕ} (n : ℕ)
    → c ≡ min 100 n
    → size ≡ 100
    → (if c == size then c else c + 1) ≡ min 100 (suc n)
counted_step n h k = ground arith

full_test : (n : ℕ) → (min 100 n == 100) ≡ leb 100 n
full_test n = ground arith

module _ (history : List Bool) (h : Health) (e : Bool) (holds : Holds history h) where
  slots-record_health :
      (i : ℕ)
      → i < 100
      → i < length (e ∷ history)
      → get_or (record_health h e).ring ((length (e ∷ history) - 1 - i) % 100) false
        ≡ get_or (e ∷ history) i false
  unfolding record_health
  slots-record_health zero a b =
      let newest : (suc (length history) - 1 - 0) % 100 ≡ h.index = omega (arith, holds.position) in
      rw newest (get_or-set_self h.ring h.index e false (omega (arith, holds.size, holds.position)))
  slots-record_health (suc i) a b =
      let n = length history in
      let same : (suc n - 1 - suc i) % 100 ≡ (n - 1 - i) % 100 = ap (λ k. k % 100) (omega arith) in
      let apart : h.index ≢ (n - 1 - i) % 100 = omega (arith, holds.position) in
      rw same
        (get_or-set_ne h.ring h.index _ e false apart ∙ holds.slots i (omega arith) (omega arith))

  errors_full :
      100 ≤ length history
      → (record_health h e).structure_errors ≡ count_true (take 100 (e ∷ history))
  unfolding record_health
  errors_full long =
      let n = length history in
      let oldest : (n - 1 - 99) % 100 ≡ h.index = omega (arith, holds.position) in
      let evicted = rw oldest at (holds.slots 99 (omega arith) long) in
      let full : (h.count == length h.ring) ≡ true =
        (==_iff h.count (length h.ring)).1 (omega (arith, holds.counted, holds.size)) in
      rw (full, evicted, holds.errors)
        (window_step (get_or history 99 false) e (count_true-take 99 e history long)
          (count_true-pos 99 history long))

  errors_filling :
      length history < 100
      → (record_health h e).structure_errors ≡ count_true (take 100 (e ∷ history))
  unfolding record_health count_true
  errors_filling short =
      let not_full : (h.count == length h.ring) ≡ false =
        ground (arith, holds.counted, holds.size) in
      let all_kept = length-take_all 99 history (omega arith) in
      let all_read = length-take_all 100 history (omega arith) in
      rw (not_full, holds.errors, all_kept, all_read) (ground arith)

  errors-record_health : (record_health h e).structure_errors ≡ count_true (take 100 (e ∷ history))
  errors-record_health = elim (dec_le 100 (length history)) [
    | yes long ↦ errors_full long
    | no short ↦ errors_filling (omega arith)
  ]

  Holds-record_health : Holds (e ∷ history) (record_health h e)
  Holds-record_health = record {
    size = unfold record_health in length-set h.ring h.index e ∙ holds.size;
    counted = unfold record_health in counted_step (length history) holds.counted holds.size;
    position = unfold record_health in rw holds.size (omega (arith, holds.position));
    slots = slots-record_health;
    errors = errors-record_health;
  }

Holds-record_all : (history : List Bool) → Holds history (record_all history)
unfolding record_all
Holds-record_all [] = Holds-healthy
Holds-record_all (e ∷ older) =
    Holds-record_health older (record_all older) e (Holds-record_all older)

-- The detector counts the structure errors of the last hundred records exactly, and it is
-- suspended exactly when at least a hundred records were read and more than ten of the last
-- hundred are structure errors.
pub record_all-window :
    (history : List Bool)
    → ((record_all history).structure_errors ≡ count_true (take 100 history))
      × (sensor_suspended (record_all history)
          ≡ (leb 100 (length history) && ltb 10 (count_true (take 100 history))))
unfolding sensor_suspended
record_all-window history =
    let holds = Holds-record_all history in
    (holds.errors, rw (holds.size, holds.counted, holds.errors) (rw full_test))
