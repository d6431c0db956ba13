-- ===== src/HopSession/Tests.antt =====
-- A session of iiod/spf-hop-session.c on a device that plays two recorded events.
use libiio.Prelude.{
  ℕ, zero, suc, ◌+◌, ◌<◌, ◌≤◌, ◌≡◌, ◌⊎◌, inl, refl, List, [], ◌∷◌, some, none, arith, ok, pos,
  length,
}
use libiio.HopProtocol.{Profile, Request, DeviceEvent, Event, Sidecar, status_bytes}
use libiio.HopProtocol.Wire.{Wire, center_matches_lo}
use libiio.HopProtocol.RequestWire
use libiio.HopProtocol.EventWire.{record_bytes, encode_sidecar}
use libiio.HopProtocol.StatusWire
use libiio.HopSession.{Session, Receipt, DeviceOps}
use libiio.HopSession.Counter.{extend_counter_near, extend_counter_near-recovers}
use libiio.HopSession.Ops.{fresh, opened, init, on_block}
use libiio.HopSession.Inv.{DeviceContract}
use libiio.HopSession.Run.{Call, arm, start, block, run}
use libiio.HopSession.Once.{counted, restored_once}
use libiio.HopSession.Encode.{status-encode, encode-sidecar}
use libiio.HopSession.Plan.{FollowsPlan}
use libiio.HopSession.Whole.{trace, trace-FollowsPlan}
use libiio.HopSession.Complete.{length-trace}
use libiio.HopSession.Ending.{on_block-ends}
use libiio.HopSession.Covered.{IsCovered, completed-IsCovered}

extend_counter_near-recovers_example : extend_counter_near 0x1fffffff0 5 ≡ 0x200000005
extend_counter_near-recovers_example =
    extend_counter_near-recovers 0x1fffffff0 0x200000005 5 (omega arith) (omega arith) refl
      (omega arith) (omega arith)

abbrev blank : Wire
blank i = 0

-- the profile of slot `i`, 5 above its LO
abbrev profile : ℕ → Profile
profile i = record {
  profile_id = i;
  fastlock_slot = i;
  center_frequency_hz = 1005 + i;
  lo_frequency_hz = 1000 + i;
  profile_crc32 = 1;
}

abbrev request : Request
request = record {
  required_features = 0x1f;
  flags = 3;
  session_id = 9;
  sample_rate_hz = 2500000;
  rf_bandwidth_hz = 2000000;
  if_offset_hz = 5;
  dwell_samples = 1000;
  transition_guard_samples = 10;
  dwell_count = 2;
  capture_span_samples = 2000;
  initial_profile = 0;
  profiles =
      profile 0
      ∷ profile 1
      ∷ profile 2
      ∷ profile 3
      ∷ profile 4
      ∷ profile 5
      ∷ profile 6
      ∷ profile 7
      ∷ [];
}

abbrev startup : DeviceEvent
startup = record {
  event_sequence = 0;
  dwell_index = 0;
  transition_before = 100;
  transition_after = 105;
  actual_lo_frequency_hz = 1000;
  actual_if_offset_hz = 5;
  device_event_id = 1;
  from_profile = 255;
  to_profile = 0;
  kind = 1;
  flags = 3;
  fastlock_slot = 0;
}

abbrev retune : DeviceEvent
retune = record {
  event_sequence = 1;
  dwell_index = 1;
  transition_before = 1116;
  transition_after = 1120;
  actual_lo_frequency_hz = 1001;
  actual_if_offset_hz = 5;
  device_event_id = 2;
  from_profile = 0;
  to_profile = 1;
  kind = 2;
  flags = 3;
  fastlock_slot = 1;
}

abbrev first_event : Event
first_event = record { device = startup; invalid_start = 100; invalid_end = 115 }

abbrev second_event : Event
second_event = record { device = retune; invalid_start = 1115; invalid_end = 1130 }

abbrev receipt : Receipt
receipt = record {
  transition_before = 2410;
  transition_after = 2412;
  restored_lo_frequency_hz = 99;
  error_code = 0;
  restored_profile = 255;
  flags = 3;
}

-- the events of the n-th drain
abbrev recorded : ℕ → List DeviceEvent
recorded zero = startup ∷ []
recorded (suc zero) = retune ∷ []
recorded (suc (suc n)) = []

-- a device that knows how often it was drained
abbrev device : DeviceOps ℕ
device = record {
  submit_plan = λ n r. (0, n);
  drain_events = λ n. (record { ret = 0; events = recorded n; dropped = 0 }, n + 1);
  cancel_restore = λ n reason. ((0, receipt), n);
}

device_ok : DeviceContract device
device_ok n reason = inl refl

init_ok : init blank request ≡ (0, some (fresh request))
unfolding init opened RequestWire.encode RequestWire.validate_request RequestWire.geometry_valid
    RequestWire.profiles_valid RequestWire.profile_valid center_matches_lo
init_ok = refl

abbrev calls : List Call
calls = arm ∷ start ∷ block 0 0 1200 ∷ block 1 1200 2400 ∷ []

run-three : (run device calls 0 (fresh request)).0.status.state ≡ 3
unfolding run fresh
run-three = refl

trace-two : trace device calls 0 (fresh request) ≡ first_event ∷ second_event ∷ []
unfolding trace fresh
trace-two = refl

abbrev sidecar : Sidecar
sidecar = record {
  flags = 32;
  session_id = 9;
  buffer_sequence = 0;
  block_first_sample = 0;
  block_end_sample = 1200;
  state = 2;
  terminal_reason = 0;
  error_code = 0;
  events = first_event ∷ [];
}

-- the session that has started
abbrev started : Session × ℕ
started = run device (arm ∷ start ∷ []) 0 (fresh request)

first_block : (on_block device started.1 started.0 0 0 1200).0.1 ≡ some sidecar
unfolding run fresh
first_block = refl

status-encode_example :
    (StatusWire.encode status_bytes (run device calls 0 (fresh request)).0.status blank).0 ≡ ok
status-encode_example =
    status-encode device blank blank request (fresh request) init_ok device_ok calls 0

encode-sidecar_example : (encode_sidecar 144 sidecar blank).0 ≡ pos (record_bytes sidecar)
unfolding record_bytes
encode-sidecar_example =
    encode-sidecar device device_ok blank request (fresh request) init_ok (arm ∷ start ∷ []) 0 0 0
      1200 sidecar first_block 144 blank (omega arith)

restored_once_example :
    let (s, kd) = run (counted device) calls (0, 0) (fresh request) in
    (s.status.state < 3) × (kd.0 ≡ 0) ⊎ (3 ≤ s.status.state) × (kd.0 ≡ 1)
restored_once_example = restored_once device blank request (fresh request) init_ok device_ok calls 0

trace-FollowsPlan_example : FollowsPlan request (none, 0) (trace device calls 0 (fresh request))
trace-FollowsPlan_example =
    trace-FollowsPlan device blank request (fresh request) init_ok (omega arith) device_ok calls 0

length-trace_example : length (trace device calls 0 (fresh request)) ≤ 2
length-trace_example =
    length-trace device blank request (fresh request) init_ok (omega arith) device_ok calls 0

-- both visits have begun, and the second is not over
abbrev short_calls : List Call
short_calls = arm ∷ start ∷ block 0 0 1200 ∷ block 1 1200 2000 ∷ []

abbrev waiting : Session × ℕ
waiting = run device short_calls 0 (fresh request)

waiting-running : waiting.0.status.state ≡ 2
unfolding run fresh
waiting-running = refl

waiting-visits : waiting.0.status.visits_started ≡ 2
unfolding run fresh
waiting-visits = refl

waiting-end : waiting.0.last_event.invalid_end ≡ 1130
unfolding run fresh
waiting-end = refl

on_block-ends_example : 3 ≤ (on_block device waiting.1 waiting.0 2 2000 2200).0.2.status.state
on_block-ends_example =
    on_block-ends device blank request (fresh request) init_ok (omega arith) device_ok short_calls 0
      2 2000 2200 waiting-running waiting-visits (omega arith) (rw waiting-end (omega arith))

completed-IsCovered_example : IsCovered (run device calls 0 (fresh request)).0
completed-IsCovered_example =
    completed-IsCovered device blank request (fresh request) init_ok device_ok calls 0 run-three
