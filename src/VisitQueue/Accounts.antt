-- ===== src/VisitQueue/Accounts.antt =====
-- The books of a visit queue (iiod/spf-visit-queue.c): what it has reserved is what its visits
-- hold, it has leased the blocks that it owns, and both stay inside the configured limits.
use libiio.Prelude.{
  ℕ, zero, suc, ◌+◌, ◌*◌, ◌/◌, ◌≤◌, ◌<◌, ◌≡◌, refl, ap, Bool, true, false, List, [], ◌∷◌, ◌++◌,
  arith, if_elim, length-append, length, ℤ, if◌then◌else◌, ◌⊎◌, inl, inr,
}
use libiio.VisitQueue.{
  Queue, Visit, Config, config_valid, blocks_valid, rates_valid, budgets_valid, scan_rate_valid,
  each_visit, over_visits,
}
use libiio.VisitQueue.Ops.{
  reserve, admit, no_capacity, new_visit, clocks_ahead, visit_blocks, expire, expire_visit, cancel,
  cancel_visit,
}
use libiio.VisitQueue.Sums.{
  flags, sum_bytes, sum_blocks, KeepsBalance, each_visit-Balanced, expire_visit-Balanced,
  cancel_visit-Balanced,
}

-- how many of the first `n` are true
abbrev pub count_true : ℕ → List Bool → ℕ
count_true zero bs = 0
count_true (suc n) [] = 0
count_true (suc n) (b ∷ bs) = (if b then 1 else 0) + count_true n bs

pub record IsAccounted (q : Queue) : Type 0 where
  pub valid : config_valid q.config ≡ true
  pub bytes : sum_bytes q.visits ≡ q.reserved_bytes
  pub blocks : sum_blocks q.visits ≡ q.reserved_blocks
  pub leases : q.leased_blocks ≡ count_true q.config.block_count (flags q.blocks)
  pub bytes_room : q.reserved_bytes ≤ q.config.maximum_bytes
  pub blocks_room : q.reserved_blocks + q.config.headroom_blocks ≤ q.config.block_count
  pub visits_room : length q.visits ≤ q.config.maximum_visits

-- the limits that every accepted configuration respects
pub record Bounds (c : Config) : Type 0 where
  pub blocks : c.block_count ≤ 64
  pub headroom : c.headroom_blocks < c.block_count
  pub visits : c.maximum_visits ≤ 64
  pub frame : 0 < c.block_samples
  pub frame_le : c.block_samples ≤ 1000000
  pub rate : c.source_rate_hz ≤ 61440000
  pub visit_ms : c.maximum_visit_ms ≤ 360
  pub sample : c.bytes_per_sample ≤ 8
  pub sample_pos : 0 < c.bytes_per_sample
  pub bytes : c.maximum_bytes ≤ 200000000
  pub age : c.maximum_age_ticks ≤ c.source_rate_hz * 10
  pub drain : (0 < c.drain_bytes_per_second) × (c.drain_bytes_per_second ≤ 1000000000)

blocks_bounds :
    (c : Config)
    → blocks_valid c ≡ true
    → (c.block_count ≤ 64)
      × (c.headroom_blocks < c.block_count)
      × (c.maximum_visits ≤ 64)
      × (0 < c.block_samples)
      × (c.block_samples ≤ 1000000)
unfolding blocks_valid
blocks_bounds c h = ground arith

rates_bounds :
    (c : Config)
    → rates_valid c ≡ true
    → (c.source_rate_hz ≤ 61440000)
      × (c.maximum_visit_ms ≤ 360)
      × (c.bytes_per_sample ≤ 8)
      × (0 < c.bytes_per_sample)
unfolding rates_valid scan_rate_valid
rates_bounds c h = ground arith

budgets_bounds :
    (c : Config)
    → budgets_valid c ≡ true
    → (c.maximum_bytes ≤ 200000000)
      × (c.maximum_age_ticks ≤ c.source_rate_hz * 10)
      × (0 < c.drain_bytes_per_second)
      × (c.drain_bytes_per_second ≤ 1000000000)
unfolding budgets_valid
budgets_bounds c h = ground arith

all_valid :
    (c : Config)
    → config_valid c ≡ true
    → (blocks_valid c ≡ true) × (rates_valid c ≡ true) × (budgets_valid c ≡ true)
unfolding config_valid
all_valid c h = ground arith

pub config-Bounds : (c : Config) → config_valid c ≡ true → Bounds c
config-Bounds c h =
    let v = all_valid c h in
    let k = blocks_bounds c v.0 in
    let r = rates_bounds c v.1 in
    let b = budgets_bounds c v.2 in
    record {
      blocks = k.0;
      headroom = k.1;
      visits = k.2;
      frame = k.3;
      frame_le = k.4;
      rate = r.0;
      visit_ms = r.1;
      sample = r.2;
      sample_pos = r.3;
      bytes = b.0;
      age = b.1;
      drain = (b.2, b.3);
    }

each_visit-length :
    (body : Queue → Visit → Queue × Visit) (vs : List Visit) (q : Queue)
    → length (each_visit body q vs).1 ≡ length vs
unfolding each_visit
each_visit-length body [] q = refl
each_visit-length body (v ∷ vs) q = ap suc (each_visit-length body vs (body q v).0)

-- A loop over the visits whose body keeps the balance keeps the books.
pub over_visits-IsAccounted :
    (body : Queue → Visit → Queue × Visit)
    → KeepsBalance body
    → (q : Queue) → IsAccounted q
    → IsAccounted (over_visits body q)
unfolding over_visits
over_visits-IsAccounted body keeps q h =
    let c = config-Bounds q.config h.valid in
    let loop = each_visit-Balanced body keeps q.visits q 0 0 (omega (arith, h, c)) in
    record {
      valid = rw loop.1.config h.valid;
      bytes = omega (arith, loop.0);
      blocks = omega (arith, loop.0);
      leases = rw (loop.1.config, loop.1.leased, loop.1.owned) h.leases;
      bytes_room = rw loop.1.config (omega (arith, loop.1, h));
      blocks_room = rw loop.1.config (omega (arith, loop.1, h));
      visits_room = rw (loop.1.config, each_visit-length body q.visits q) h.visits_room;
    }

pub expire-IsAccounted : (q : Queue) (now : ℕ) → IsAccounted q → IsAccounted (expire q now).1
unfolding expire
expire-IsAccounted q now h =
    if_elim (λ (s : ℤ × Queue). IsAccounted s.1) (clocks_ahead q.visits now) (λ _. h)
      (λ _. over_visits-IsAccounted (expire_visit now) (expire_visit-Balanced now) q h)

pub cancel-IsAccounted : (q : Queue) → IsAccounted q → IsAccounted (cancel q).1
unfolding cancel
cancel-IsAccounted q h =
    over_visits-IsAccounted cancel_visit cancel_visit-Balanced (record q { cancelled = true })
      (ground arith)

pub sum-append :
    (vs ws : List Visit)
    → (sum_bytes (vs ++ ws) ≡ sum_bytes vs + sum_bytes ws)
      × (sum_blocks (vs ++ ws) ≡ sum_blocks vs + sum_blocks ws)
sum-append [] ws = omega arith
sum-append (v ∷ vs) ws = omega (arith, sum-append vs ws)

pub count_true-le : (n : ℕ) (bs : List Bool) → count_true n bs ≤ n
count_true-le zero bs = omega arith
count_true-le (suc n) [] = omega arith
count_true-le (suc n) (true ∷ bs) = omega (arith, count_true-le n bs)
count_true-le (suc n) (false ∷ bs) = omega (arith, count_true-le n bs)

samples_small :
    (c : Config) (samples : ℕ)
    → config_valid c ≡ true
    → samples ≤ c.source_rate_hz * c.maximum_visit_ms / 1000
    → samples ≤ 22118400
samples_small c samples h s =
    let b = config-Bounds c h in
    let p : c.source_rate_hz * c.maximum_visit_ms ≤ 61440000 * 360 = grind (arith, b) in omega arith

visit_blocks_small :
    (c : Config) (samples : ℕ)
    → config_valid c ≡ true
    → samples ≤ c.source_rate_hz * c.maximum_visit_ms / 1000
    → visit_blocks c samples ≤ 23200000
unfolding visit_blocks
visit_blocks_small c samples h s =
    let b = config-Bounds c h in omega (arith, samples_small c samples h s, b)

-- A visit is admitted only within the limits, and then nothing wraps.
admit-IsAccounted :
    (q : Queue) (id samples now : ℕ)
    → IsAccounted q
    → samples ≤ q.config.source_rate_hz * q.config.maximum_visit_ms / 1000
    → no_capacity q (visit_blocks q.config samples) (samples * q.config.bytes_per_sample) ≡ false
    → IsAccounted (admit q id samples now)
unfolding admit no_capacity new_visit
admit-IsAccounted q id samples now h s e =
    let c = config-Bounds q.config h.valid in
    let small = visit_blocks_small q.config samples h.valid s in
    record {
      valid = h.valid;
      bytes = ground (
        arith,
        sum-append q.visits (
            new_visit id samples now (visit_blocks q.config samples)
              (samples * q.config.bytes_per_sample)
            ∷ []),
        h,
        c,
      );
      blocks = ground (
        arith,
        sum-append q.visits (
            new_visit id samples now (visit_blocks q.config samples)
              (samples * q.config.bytes_per_sample)
            ∷ []),
        h,
        c,
        small,
        count_true-le q.config.block_count (flags q.blocks),
      );
      leases = h.leases;
      bytes_room = ground (arith, h, c);
      blocks_room =
          ground (arith, h, c, small, count_true-le q.config.block_count (flags q.blocks));
      visits_room = ground (
        arith,
        h,
        c,
        length-append q.visits (
            new_visit id samples now (visit_blocks q.config samples)
              (samples * q.config.bytes_per_sample)
            ∷ []),
      );
    }

-- Either the queue stays as it is, or the visit passed the tests and is admitted.
pub admits-cases :
    (q : Queue) (id samples now : ℕ)
    → ((reserve q id samples now).2 ≡ q)
      ⊎ (((reserve q id samples now).2 ≡ admit q id samples now)
          × (samples ≤ q.config.source_rate_hz * q.config.maximum_visit_ms / 1000)
          × (no_capacity q (visit_blocks q.config samples) (samples * q.config.bytes_per_sample)
              ≡ false))
unfolding reserve
admits-cases q id samples now = ground arith

-- What a reservation may do: leave the queue as it is, or keep the headroom out of the blocks that are leased or
-- reserved.
abbrev pub IsWithinHeadroom : Queue → Queue → Type 0
IsWithinHeadroom q r =
    (r ≡ q)
    ⊎ (r.leased_blocks + r.reserved_blocks + r.config.headroom_blocks ≤ r.config.block_count)

admit-within :
    (q : Queue) (id samples now : ℕ)
    → IsAccounted q
    → samples ≤ q.config.source_rate_hz * q.config.maximum_visit_ms / 1000
    → no_capacity q (visit_blocks q.config samples) (samples * q.config.bytes_per_sample) ≡ false
    → let r = admit q id samples now in
      r.leased_blocks + r.reserved_blocks + r.config.headroom_blocks ≤ r.config.block_count
unfolding admit no_capacity new_visit
admit-within q id samples now h s e =
    let c = config-Bounds q.config h.valid in
    let small = visit_blocks_small q.config samples h.valid s in
    ground (arith, h, c, small, count_true-le q.config.block_count (flags q.blocks))

pub reserve-IsWithinHeadroom :
    (q : Queue) (id samples now : ℕ)
    → IsAccounted q
    → IsWithinHeadroom q (reserve q id samples now).2
reserve-IsWithinHeadroom q id samples now h = elim (admits-cases q id samples now) [
  | inl same ↦ inl same
  | inr a ↦ inr (rw a.0 (admit-within q id samples now h a.1 a.2))
]

pub reserve-IsAccounted :
    (q : Queue) (id samples now : ℕ) → IsAccounted q → IsAccounted (reserve q id samples now).2
unfolding reserve
reserve-IsAccounted q id samples now h = elim (admits-cases q id samples now) [
  | inl same ↦ rw same h
  | inr a ↦ rw a.0 (admit-IsAccounted q id samples now h a.1 a.2)
]

swap_head :
    (q : Queue) (v w : Visit) (vs : List Visit)
    → q.visits ≡ v ∷ vs
    → v.bytes ≡ w.bytes
    → v.remaining_blocks ≡ w.remaining_blocks
    → IsAccounted q
    → IsAccounted (record q { visits = w ∷ vs })
swap_head q v w vs e b k h = ground (arith, ap sum_bytes e, ap sum_blocks e, ap length e)
