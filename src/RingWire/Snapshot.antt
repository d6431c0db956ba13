-- ===== src/RingWire/Snapshot.antt =====
-- The status of a DDR ring as iiod/ops.c takes it, and that the encoder of iiod/spf-ddr-ring-status.c accepts it.
use libiio.Prelude.{
  ℕ, ◌+◌, ◌≤◌, ◌<◌, ◌≡◌, refl, true, if◌then◌else◌, List, some, arith, length, ℤ, pos, negsuc, ok,
  word64, word32, ◌-◌, suc,
}
use libiio.HopProtocol.Wire.{Wire}
use libiio.DdrRing.{
  Ring, State, off, reserved, running, draining, complete, failed, cancelled, init,
}
use libiio.DdrRing.Inv.{init-IsValid}
use libiio.DdrRing.Step.{Op, run}
use libiio.DdrRing.Unwrapped.{IsUnwrapped, init-IsUnwrapped, run-IsUnwrapped}
use libiio.RingWire.Status.{RingStatus, status_values_valid, encode}

-- the numbers of `enum spf_ddr_ring_state`
unfoldable pub state_number : State → ℕ
state_number off = 0
state_number reserved = 1
state_number running = 2
state_number draining = 3
state_number complete = 4
state_number failed = 5
state_number cancelled = 6

-- an int as its 32-bit pattern
abbrev pub pattern_of : ℤ → ℕ
pattern_of (pos n) = n
pattern_of (negsuc n) = word32 - suc n

-- what `read_buffer_metadata_status` copies from the ring under its lock
unfoldable pub snapshot : Ring → ℕ → ℕ → RingStatus
unfolding state_number
snapshot r requested admitted = record {
  state = state_number r.state;
  terminal_reason = r.terminal_reason;
  valid_fields =
      (if r.last_contiguous_valid then 1 else 0) + (if r.first_unavailable_valid then 2 else 0);
  error_code = pattern_of r.error_code;
  requested_capacity_iq_bytes = requested;
  admitted_capacity_iq_bytes = admitted;
  target_frames = r.target_frames;
  produced_frames = r.produced_frames;
  consumed_frames = r.consumed_frames;
  high_water_frames = r.high_water_frames;
  wrap_count = r.wrap_count;
  producer_position = r.producer_position;
  consumer_position = r.consumer_position;
  last_contiguous_sample_sequence = (if r.last_contiguous_valid then r.last_contiguous else 0);
  first_unavailable_sample_sequence =
      (if r.first_unavailable_valid then r.first_unavailable else 0);
}

state_bound : (s : State) → state_number s ≤ 6
unfolding state_number
state_bound off = omega arith
state_bound reserved = omega arith
state_bound running = omega arith
state_bound draining = omega arith
state_bound complete = omega arith
state_bound failed = omega arith
state_bound cancelled = omega arith

shown :
    (r : Ring) (n requested admitted : ℕ)
    → IsUnwrapped r n
    → status_values_valid (snapshot r requested admitted) ≡ true
unfolding status_values_valid snapshot
shown r n requested admitted c = let small = state_bound r.state in ground (arith, c, small)

-- From `init` on, with fewer than 2^64 slots, after fewer than 2^64 calls, the encoder takes the status that the daemon reads off the ring.
pub snapshot-encode :
    (count target : ℕ) {r : Ring} (ops : List Op) (requested admitted : ℕ) (p : Wire)
    → count < word64
    → length ops < word64
    → init count target ≡ some r
    → (encode 128 (snapshot (run r ops) requested admitted) p).0 ≡ ok
unfolding encode
snapshot-encode count target {r} ops requested admitted p h small e =
    let c =
      run-IsUnwrapped ops (omega arith) (init-IsValid count target h e)
        (init-IsUnwrapped count target e) in
    rw (shown (run r ops) (0 + length ops) requested admitted c) refl
