-- ===== src/DdrRing/Tests.antt =====
-- Runs of the ring of iiod/ddr-ring-core.c.
use libiio.Prelude.{
  ◌<◌, ◌≡◌, ◌≢◌, refl, true, false, List, [], ◌∷◌, ◌++◌, none, some, arith, ok, All, inl, take,
  subst, ecanceled, is_negative,
}
use libiio.DdrRing
use libiio.DdrRing.{
  Ring, free, producer, committed, consumer, running, cancelled, advance, fresh, is_terminal,
  consumer_ready, observe_samples, taken_ring, reason_client_cancelled,
}
use libiio.DdrRing.Inv.{IsValid}
use libiio.DdrRing.Ops.{served_ring, consumer_reserve-ready, consumer_reserve-not_ready}
use libiio.DdrRing.Step.{
  Op, start, producer_reserve, producer_commit, producer_abort, consumer_reserve, consumer_release,
  cancel, step, run, reachable-IsValid,
}
use libiio.DdrRing.Fifo.{
  contents, effect, contents-step, producer_reserve-exclusive, consumer_reserve-oldest,
  reservations_disjoint, IsApart,
}
use libiio.DdrRing.Progress.{IsCounted, dropped_in, run_counts, terminal_stays}
use libiio.DdrRing.Continuity.{observe_all, gapless_end, has_gap, observe_all_lem}

abbrev three : Ring
three = fresh 3 0

-- three frames, of which the consumer has released one, and one more in production
abbrev script : List Op
script =
    start ∷ producer_reserve ∷ producer_commit ∷ producer_reserve ∷ producer_commit
    ∷ producer_reserve ∷ producer_commit ∷ consumer_reserve ∷ consumer_release ∷ producer_reserve
    ∷ []

init-three : DdrRing.init 3 0 ≡ some three
unfolding DdrRing.init
init-three = refl

abbrev busy : Ring
busy = record {
  slots = producer ∷ committed ∷ committed ∷ [];
  slot_count = 3;
  producer_position = 0;
  consumer_position = 1;
  occupied = 2;
  prefill_frames = 3;
  low_water_frames = 1;
  target_frames = 0;
  produced_frames = 3;
  consumed_frames = 1;
  high_water_frames = 3;
  wrap_count = 1;
  last_contiguous = 0;
  first_unavailable = 0;
  expected_sample = 0;
  state = running;
  terminal_reason = 0;
  error_code = ok;
  producer_reserved = true;
  consumer_reserved = false;
  consumer_started = true;
  last_contiguous_valid = false;
  first_unavailable_valid = false;
  expected_sample_valid = false;
  continuity_broken = false;
}

-- both reservations at once
abbrev held : Ring
held = record busy { slots = producer ∷ consumer ∷ committed ∷ []; consumer_reserved = true }

-- nothing in production, and the oldest frame not released yet
abbrev idle : Ring
idle = record busy { slots = free ∷ committed ∷ committed ∷ []; producer_reserved = false }

abbrev stopped : Ring
stopped = record idle { state = cancelled; terminal_reason = 2; error_code = ecanceled }

busy_is : run three script ≡ busy
unfolding run step advance DdrRing.fresh DdrRing.slot_at DdrRing.state_allows_drain
    DdrRing.init_prefill DdrRing.init_low_water DdrRing.start DdrRing.producer_reserve
    DdrRing.commit_state DdrRing.committed_ring DdrRing.producer_commit DdrRing.taken_ring
    DdrRing.take_slot DdrRing.consumer_reserve DdrRing.released_ring DdrRing.consumer_release
busy_is = refl

held_is : run three (script ++ (consumer_reserve ∷ [])) ≡ held
unfolding run step advance DdrRing.fresh DdrRing.slot_at DdrRing.state_allows_drain
    DdrRing.init_prefill DdrRing.init_low_water DdrRing.start DdrRing.producer_reserve
    DdrRing.commit_state DdrRing.committed_ring DdrRing.producer_commit DdrRing.taken_ring
    DdrRing.take_slot DdrRing.consumer_reserve DdrRing.released_ring DdrRing.consumer_release
held_is = refl

idle_is : run three (script ++ (producer_abort ∷ [])) ≡ idle
unfolding run step advance DdrRing.fresh DdrRing.slot_at DdrRing.state_allows_drain
    DdrRing.init_prefill DdrRing.init_low_water DdrRing.start DdrRing.producer_reserve
    DdrRing.commit_state DdrRing.committed_ring DdrRing.producer_commit DdrRing.taken_ring
    DdrRing.take_slot DdrRing.consumer_reserve DdrRing.released_ring DdrRing.consumer_release
    DdrRing.producer_abort
idle_is = refl

stopped_is : run three (script ++ (cancel 2 ∷ [])) ≡ stopped
unfolding run step advance DdrRing.fresh DdrRing.slot_at DdrRing.state_allows_drain
    DdrRing.init_prefill DdrRing.init_low_water DdrRing.start DdrRing.producer_reserve
    DdrRing.commit_state DdrRing.committed_ring DdrRing.producer_commit DdrRing.taken_ring
    DdrRing.take_slot DdrRing.consumer_reserve DdrRing.released_ring DdrRing.consumer_release
    DdrRing.producer_abort DdrRing.abort_reserved DdrRing.cancel DdrRing.is_terminal
stopped_is = refl

reached : (ops : List Op) {r : Ring} → run three ops ≡ r → IsValid r
reached ops e = subst IsValid e (reachable-IsValid 3 0 ops (omega arith) init-three)

busy-IsValid : IsValid busy
busy-IsValid = reached script busy_is

held-IsValid : IsValid held
held-IsValid = reached (script ++ (consumer_reserve ∷ [])) held_is

idle-IsValid : IsValid idle
idle-IsValid = reached (script ++ (producer_abort ∷ [])) idle_is

stopped-IsValid : IsValid stopped
stopped-IsValid = reached (script ++ (cancel 2 ∷ [])) stopped_is

idle-ready : consumer_ready idle ≡ true
unfolding DdrRing.consumer_ready DdrRing.state_allows_drain
idle-ready = refl

reachable-IsValid_example : IsValid (run three script)
reachable-IsValid_example = reachable-IsValid 3 0 script (omega arith) init-three

contents-step_example : contents (step busy producer_commit).2 ≡ effect busy producer_commit
contents-step_example = contents-step producer_commit busy-IsValid

run_counts_example : IsCounted (run three script) (dropped_in three script)
run_counts_example = run_counts 3 0 script (omega arith) (omega arith) init-three

stopped_is_terminal : is_terminal stopped ≡ true
unfolding DdrRing.is_terminal
stopped_is_terminal = refl

terminal_stays_example :
    (is_terminal (step stopped consumer_release).2 ≡ true)
    × ((step stopped consumer_release).2.state ≡ cancelled)
    × ((step stopped consumer_release).2.terminal_reason ≡ 2)
    × ((step stopped consumer_release).2.error_code ≡ ecanceled)
terminal_stays_example = terminal_stays consumer_release stopped-IsValid stopped_is_terminal

consumer_reserve-ready_example :
    DdrRing.consumer_reserve idle ≡ (ok, some 1, taken_ring (served_ring idle))
consumer_reserve-ready_example = consumer_reserve-ready idle-IsValid refl idle-ready

consumer_reserve-not_ready_example :
    (is_negative (DdrRing.consumer_reserve held).0 ≡ true)
    × ((DdrRing.consumer_reserve held).1 ≡ none)
    × ((DdrRing.consumer_reserve held).2 ≡ held)
consumer_reserve-not_ready_example = consumer_reserve-not_ready held-IsValid (inl refl)

idle-producer_reserve : (DdrRing.producer_reserve idle).1 ≡ some 0
unfolding DdrRing.producer_reserve DdrRing.slot_at
idle-producer_reserve = refl

producer_reserve-exclusive_example : (0 < 3) × All (λ x. x ≢ 0) (contents idle)
producer_reserve-exclusive_example = producer_reserve-exclusive idle-IsValid idle-producer_reserve

idle-consumer_reserve : (DdrRing.consumer_reserve idle).1 ≡ some 1
unfolding DdrRing.consumer_reserve DdrRing.take_slot DdrRing.slot_at DdrRing.state_allows_drain
idle-consumer_reserve = refl

consumer_reserve-oldest_example : (false ≡ false) × (take 1 (contents idle) ≡ 1 ∷ [])
consumer_reserve-oldest_example = consumer_reserve-oldest idle-IsValid idle-consumer_reserve

reservations_disjoint_example : IsApart (run three (script ++ (consumer_reserve ∷ [])))
reservations_disjoint_example =
    reservations_disjoint 3 0 (script ++ (consumer_reserve ∷ [])) (omega arith) init-three

-- frames of 10 samples at 100, 110 and, behind a gap, 130
observe_all_lem_example :
    ((observe_all 10 three (100 ∷ 110 ∷ 130 ∷ [])).last_contiguous ≡ 120)
    × ((observe_all 10 three (100 ∷ 110 ∷ 130 ∷ [])).continuity_broken ≡ true)
    × ((observe_all 10 three (100 ∷ 110 ∷ 130 ∷ [])).first_unavailable ≡ 120)
unfolding gapless_end has_gap DdrRing.fresh
observe_all_lem_example =
    observe_all_lem 10 100 (110 ∷ 130 ∷ []) three (omega arith)
      (omega arith, (omega arith, (omega arith, tt))) refl refl refl
