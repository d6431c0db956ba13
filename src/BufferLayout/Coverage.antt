-- ===== src/BufferLayout/Coverage.antt =====
-- How many observations a sampler must keep: iiod/spf-sampler-coverage.c.
use libiio.Prelude.{
  ℕ, ◌+◌, ◌-◌, ◌*◌, ◌/◌, ◌%◌, ◌≤◌, ◌<◌, ◌≡◌, ◌⊎◌, ltb, ◌==◌, ◌||◌, if◌then◌else◌, Option, none,
  some, ℤ, ok, einval, e2big, arith, word32, word64, inl, inr,
}
use native.Mathlib.Nat.{mul-le-mul_left, mul-le-mul_right, mul-lt-mul_of_pos_right, mul_right_comm}

-- `struct spf_sampler_coverage_plan`
pub record CoveragePlan : Type 0 where
  pub window_samples : ℕ
  pub maximum_observations : ℕ

-- `spf_sampler_queued_observation_interval`
unfoldable pub queued_observation_interval : ℕ → ℕ → ℤ × Option ℕ
queued_observation_interval samples_per_frame requested_interval =
    let half = samples_per_frame / 2 in
    let maximum = if half == 0 then 1 else half in
    if samples_per_frame == 0 || requested_interval == 0
    then (einval, none)
    else (ok, some (if ltb requested_interval maximum then requested_interval else maximum))

-- `spf_sampler_coverage_plan_compute` in 64-bit arithmetic; a plan that is too large has been written
unfoldable pub coverage_plan_compute : ℕ → ℕ → ℕ → ℕ → ℤ × Option CoveragePlan
coverage_plan_compute samples_per_frame interval kernel_buffers capacity =
    let windows = (kernel_buffers + 1) % word64 in
    let per_frame = (samples_per_frame + interval - 1) % word64 / interval in
    let plan : CoveragePlan = record {
      window_samples = samples_per_frame * windows % word64;
      maximum_observations = per_frame * windows % word64;
    } in
    if samples_per_frame == 0 || interval == 0 || kernel_buffers == 0 || capacity == 0
    then (einval, none)
    else if ltb capacity plan.maximum_observations
    then (e2big, some plan)
    else (ok, some plan)

le_or_lt : (a b : ℕ) → (a ≤ b) ⊎ (b < a)
le_or_lt a b = ground arith

-- rounding up
div_up : (a b : ℕ) → 0 < b → a ≤ (a + b - 1) / b * b
div_up a b h = omega arith

div_up_small : (a b : ℕ) → 0 < b → 0 < a → (a + b - 1) / b ≤ a
div_up_small a b p q =
    let k = (a + b - 1) / b in
    let times : a * 1 ≤ a * b = mul-le-mul_left a p in
    elim (le_or_lt k a) [
      | inl h ↦ h
      | inr h ↦
          (let over : (a + 1) * b ≤ k * b = mul-le-mul_right b (omega (arith, h)) in
            let under : k * b ≤ a + b - 1 = omega arith in
            let split : (a + 1) * b ≡ a * b + b = omega arith in absurd (omega arith))
    ]

product_small : (a b : ℕ) → a < word32 → b ≤ word32 → a * b < word64
product_small a b p q =
    let first : a * b ≤ a * word32 = mul-le-mul_left a q in
    let second : a * word32 < word32 * word32 = mul-lt-mul_of_pos_right p (omega arith) in
    omega arith

-- the observations of the windows reach over all of their samples
reach :
    (samples interval windows : ℕ)
    → 0 < interval
    → samples * windows ≤ (samples + interval - 1) / interval * windows * interval
reach samples interval windows h =
    let k = (samples + interval - 1) / interval in
    let up : samples * windows ≤ k * interval * windows =
      mul-le-mul_right windows (div_up samples interval h) in
    rw (mul_right_comm k windows interval) up

-- what a plan promises: the observations, which fit, reach over its window
pub record IsCovering (samples_per_frame interval kernel_buffers capacity : ℕ) (p : CoveragePlan)
    : Type 0 where
  pub window : p.window_samples ≡ samples_per_frame * (kernel_buffers + 1)
  pub covered : p.window_samples ≤ p.maximum_observations * interval
  pub stored : p.maximum_observations ≤ capacity

-- A plan that is accepted for 32-bit numbers reaches over all the frames in the
-- queue and the one in hand with observations that fit.
pub coverage_plan_compute-IsCovering :
    (samples interval buffers capacity : ℕ) (p : CoveragePlan)
    → samples < word32
    → interval < word32
    → buffers < word32
    → coverage_plan_compute samples interval buffers capacity ≡ (ok, some p)
    → IsCovering samples interval buffers capacity p
unfolding coverage_plan_compute
coverage_plan_compute-IsCovering samples interval buffers capacity p a b c e =
    let positive : 0 < interval = ground (arith, e) in
    let some_samples : 0 < samples = ground (arith, e) in
    let k = (samples + interval - 1) / interval in
    let few : k ≤ samples = div_up_small samples interval positive some_samples in
    let one = product_small samples (buffers + 1) a (omega arith) in
    let two = product_small k (buffers + 1) (omega arith) (omega arith) in
    let all = reach samples interval (buffers + 1) positive in ground (arith, e, one, two, all)
