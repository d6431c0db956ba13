-- ===== src/DdrRing/Progress.antt =====
-- How a ring of iiod/ddr-ring-core.c goes on: its counters, the target and the terminal states.
use libiio.Prelude.{
  ℕ, ◌+◌, ◌%◌, ◌≤◌, ◌<◌, ◌≡◌, subst, true, false, List, [], ◌∷◌, Option, none, some, ◌==◌, arith,
  if_elim, ◌⊎◌, ℤ, word64,
}
use libiio.DdrRing
use libiio.DdrRing.{
  Ring, init, State, reserved, running, draining, complete, state_eq, is_terminal, abort_reserved,
  committed_ring, released_ring, taken_ring, discarded_ring,
}
use libiio.DdrRing.Inv.{IsValid, init-IsValid, producer_commit-eq, consumer_release-eq}
use libiio.DdrRing.Step.{
  Op, start, start_extension, producer_reserve, producer_commit, producer_abort, consumer_reserve,
  consumer_release, discard_pending, complete_extension, mark_unavailable, observe_samples, fail,
  cancel, step, step-IsValid, run,
}

-- how many frames a call threw away, from what it wrote through its pointer
abbrev pub dropped_by : Op → Option ℕ → ℕ
dropped_by discard_pending (some n) = n
dropped_by discard_pending none = 0
dropped_by _ _ = 0

-- The counters of a ring from which `dropped` frames have been discarded so far.
pub record IsCounted (r : Ring) (dropped : ℕ) : Type 0 where
  pub target_small : r.target_frames < word64
  pub within_target : (r.target_frames == 0) ≡ false → r.produced_frames ≤ r.target_frames
  pub below_target :
      (r.target_frames == 0) ≡ false
      → (state_eq r.state reserved ≡ true) ⊎ (state_eq r.state running ≡ true)
      → r.produced_frames < r.target_frames
  pub drained_at : r.state ≡ draining → r.produced_frames ≡ r.target_frames
  pub complete_empty : r.state ≡ complete → r.occupied ≡ 0
  pub high_water : r.occupied ≤ r.high_water_frames
  pub high_room : r.high_water_frames ≤ r.slot_count
  pub balance : (r.consumed_frames + r.occupied + dropped) % word64 ≡ r.produced_frames

module _ {r : Ring} {d : ℕ} (v : IsValid r) (c : IsCounted r d) where
  commit-IsCounted : r.producer_reserved ≡ true → IsCounted (committed_ring r) d
  unfolding committed_ring
  commit-IsCounted e = record {
    target_small = ground arith;
    within_target = ground arith;
    below_target = ground arith;
    drained_at = ground arith;
    complete_empty = ground arith;
    high_water = ground arith;
    high_room = ground arith;
    balance = ground arith;
  }

  release-IsCounted : r.consumer_reserved ≡ true → IsCounted (released_ring r) d
  unfolding released_ring
  release-IsCounted e = ground arith

  reserve-IsCounted : IsCounted (DdrRing.producer_reserve r).2 d
  unfolding DdrRing.producer_reserve
  reserve-IsCounted = ground arith

  serve-IsCounted : IsCounted (DdrRing.consumer_reserve r).2 d
  unfolding DdrRing.consumer_reserve taken_ring
  serve-IsCounted = ground arith

  discard-IsCounted :
      IsCounted
        (DdrRing.discard_pending r).2
        (d + dropped_by discard_pending (DdrRing.discard_pending r).1)
  unfolding DdrRing.discard_pending discarded_ring
  discard-IsCounted = record {
    target_small = ground arith;
    within_target = ground arith;
    below_target = ground arith;
    drained_at = ground arith;
    complete_empty = ground arith;
    high_water = ground arith;
    high_room = ground arith;
    balance = ground arith;
  }

  abort_reserved-IsCounted : IsCounted (abort_reserved r) d
  unfolding abort_reserved DdrRing.producer_abort
  abort_reserved-IsCounted = ground arith

  release_call-IsCounted : IsCounted (DdrRing.consumer_release r).1 d
  release_call-IsCounted =
      rw (consumer_release-eq v)
        (if_elim (λ (s : ℤ × Ring). IsCounted s.1 d) r.consumer_reserved release-IsCounted (λ _. c))

  commit_call-IsCounted : IsCounted (DdrRing.producer_commit r).1 d
  commit_call-IsCounted =
      rw (producer_commit-eq v)
        (if_elim (λ (s : ℤ × Ring). IsCounted s.1 d) r.producer_reserved commit-IsCounted (λ _. c))

none_dropped : {r : Ring} {d : ℕ} → IsCounted r d → IsCounted r (d + 0)
none_dropped {r} {d} c = let e : d + 0 ≡ d = omega arith in rw e c

-- Every call keeps the counters right.
pub step-IsCounted :
    {r : Ring} {d : ℕ} (op : Op)
    → IsValid r
    → IsCounted r d
    → IsCounted (step r op).2 (d + dropped_by op (step r op).1)
unfolding step
step-IsCounted {r} {d} start v c = unfold DdrRing.start in ground arith
step-IsCounted {r} {d} start_extension v c = unfold DdrRing.start_extension in ground arith
step-IsCounted {r} {d} producer_reserve v c = none_dropped (reserve-IsCounted v c)
step-IsCounted {r} {d} producer_commit v c = none_dropped (commit_call-IsCounted v c)
step-IsCounted {r} {d} producer_abort v c = unfold DdrRing.producer_abort in ground arith
step-IsCounted {r} {d} consumer_reserve v c = none_dropped (serve-IsCounted v c)
step-IsCounted {r} {d} consumer_release v c = none_dropped (release_call-IsCounted v c)
step-IsCounted {r} {d} discard_pending v c = discard-IsCounted v c
step-IsCounted {r} {d} complete_extension v c = unfold DdrRing.complete_extension in ground arith
step-IsCounted {r} {d} (mark_unavailable n) v c = unfold DdrRing.mark_unavailable in ground arith
step-IsCounted {r} {d} (observe_samples f n) v c = unfold DdrRing.observe_samples in ground arith
step-IsCounted {r} {d} (fail reason error) v c =
    unfold DdrRing.fail in ground (arith, abort_reserved-IsCounted v c)
step-IsCounted {r} {d} (cancel reason) v c =
    unfold DdrRing.cancel in ground (arith, abort_reserved-IsCounted v c)

-- how many frames a sequence of calls throws away
unfoldable pub dropped_in : Ring → List Op → ℕ
dropped_in r [] = 0
dropped_in r (op ∷ ops) = dropped_by op (step r op).1 + dropped_in (step r op).2 ops

run-IsCounted :
    (ops : List Op) {r : Ring} {d : ℕ}
    → IsValid r
    → IsCounted r d
    → IsCounted (run r ops) (d + dropped_in r ops)
unfolding dropped_in run
run-IsCounted [] v c = none_dropped c
run-IsCounted (op ∷ ops) {r} {d} v c =
    let e : d + (dropped_by op (step r op).1 + dropped_in (step r op).2 ops)
        ≡ d + dropped_by op (step r op).1 + dropped_in (step r op).2 ops =
      omega arith in
    rw e (run-IsCounted ops (step-IsValid op v) (step-IsCounted op v c))

init-IsCounted :
    (count target : ℕ) {r : Ring} → target < word64 → init count target ≡ some r → IsCounted r 0
unfolding init
init-IsCounted count target h e = ground arith

-- From `init` on, with fewer than 2^64 slots and target frames, after any calls: the frames produced
-- are those consumed, held or discarded (as 64-bit counters), a target is never overrun and is exactly
-- met when the ring drains, a complete ring is empty, and the ring holds at most as many frames as the
-- high-water mark, which is at most the number of slots.
pub run_counts :
    (count target : ℕ) (ops : List Op) {r : Ring}
    → count < word64
    → target < word64
    → init count target ≡ some r
    → IsCounted (run r ops) (dropped_in r ops)
run_counts count target ops {r} h k e =
    subst (IsCounted (run r ops)) (omega arith)
      (run-IsCounted ops (init-IsValid count target h e) (init-IsCounted count target k e))

-- After any call, a valid ring that was terminal is terminal, with the same state, reason and error.
pub terminal_stays :
    {r : Ring} (op : Op)
    → IsValid r
    → is_terminal r ≡ true
    → (is_terminal (step r op).2 ≡ true)
      × ((step r op).2.state ≡ r.state)
      × ((step r op).2.terminal_reason ≡ r.terminal_reason)
      × ((step r op).2.error_code ≡ r.error_code)
unfolding step is_terminal
terminal_stays {r} start v h = unfold DdrRing.start in ground arith
terminal_stays {r} start_extension v h = unfold DdrRing.start_extension in ground arith
terminal_stays {r} producer_reserve v h = unfold DdrRing.producer_reserve in ground arith
terminal_stays {r} producer_commit v h = unfold DdrRing.producer_commit in ground arith
terminal_stays {r} producer_abort v h = unfold DdrRing.producer_abort in ground arith
terminal_stays {r} consumer_reserve v h = unfold DdrRing.consumer_reserve in ground arith
terminal_stays {r} consumer_release v h = unfold DdrRing.consumer_release in ground arith
terminal_stays {r} discard_pending v h = unfold DdrRing.discard_pending in ground arith
terminal_stays {r} complete_extension v h = unfold DdrRing.complete_extension in ground arith
terminal_stays {r} (mark_unavailable n) v h = unfold DdrRing.mark_unavailable in ground arith
terminal_stays {r} (observe_samples f n) v h = unfold DdrRing.observe_samples in ground arith
terminal_stays {r} (fail reason error) v h = unfold DdrRing.fail in ground arith
terminal_stays {r} (cancel reason) v h = unfold DdrRing.cancel in ground arith
