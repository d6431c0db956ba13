-- ===== src/HopProtocol/Tests.antt =====
-- Records of iiod/spf-hop-protocol.c, encoded and decoded.
use libiio.Prelude.{
  ℕ, ◌+◌, ◌<◌, ◌≤◌, ◌≡◌, ◌↔◌, ◌⊎◌, refl, true, [], ◌∷◌, some, arith, ok, pos, word64,
}
use libiio.HopProtocol.{Profile, Request, Event, Sidecar, Status, request_bytes, status_bytes}
use libiio.HopProtocol.Wire.{Wire, center_matches_lo, center_matches_lo_iff}
use libiio.HopProtocol.RequestWire
use libiio.HopProtocol.EventWire
use libiio.HopProtocol.StatusWire
use libiio.HopProtocol.RequestTrip.{decode-encode}
use libiio.HopProtocol.EventTrip.{sidecar_decode-encode}
use libiio.HopProtocol.StatusTrip.{status_decode-encode}

abbrev blank : Wire
blank i = 7

-- the profile of slot `i`, 5 below its center
abbrev profile : ℕ → Profile
profile i = record {
  profile_id = i;
  fastlock_slot = i;
  center_frequency_hz = 1000 + i;
  lo_frequency_hz = 1005 + i;
  profile_crc32 = 1;
}

abbrev request : Request
request = record {
  required_features = 0x1f;
  flags = 3;
  session_id = 9;
  sample_rate_hz = 2500000;
  rf_bandwidth_hz = 2000000;
  if_offset_hz = 18446744073709551611;
  dwell_samples = 1000;
  transition_guard_samples = 10;
  dwell_count = 16;
  capture_span_samples = 8000;
  initial_profile = 0;
  profiles =
      profile 0
      ∷ profile 1
      ∷ profile 2
      ∷ profile 3
      ∷ profile 4
      ∷ profile 5
      ∷ profile 6
      ∷ profile 7
      ∷ [];
}

abbrev sent_request : Wire
sent_request = (RequestWire.encode 288 request blank).1

request_sent : RequestWire.encode 288 request blank ≡ (ok, sent_request)
unfolding RequestWire.encode RequestWire.validate_request RequestWire.geometry_valid
    RequestWire.profiles_valid RequestWire.profile_valid center_matches_lo
request_sent = refl

decode-encode_example : RequestWire.decode sent_request request_bytes ≡ (ok, some request)
decode-encode_example = decode-encode request 288 blank (omega arith) request_sent

abbrev event : Event
event = record {
  device = record {
    event_sequence = 1;
    dwell_index = 4;
    transition_before = 1000;
    transition_after = 1010;
    actual_lo_frequency_hz = 1005;
    actual_if_offset_hz = 18446744073709551611;
    device_event_id = 3;
    from_profile = 0;
    to_profile = 1;
    kind = 1;
    flags = 3;
    fastlock_slot = 1;
  };
  invalid_start = 990;
  invalid_end = 1020;
}

abbrev sidecar : Sidecar
sidecar = record {
  flags = 32;
  session_id = 9;
  buffer_sequence = 2;
  block_first_sample = 1000;
  block_end_sample = 2000;
  state = 1;
  terminal_reason = 0;
  error_code = 0;
  events = event ∷ event ∷ [];
}

abbrev sent_sidecar : Wire
sent_sidecar = (EventWire.encode_sidecar 704 sidecar blank).1

sidecar_sent : EventWire.encode_sidecar 704 sidecar blank ≡ (pos 224, sent_sidecar)
unfolding EventWire.encode_sidecar EventWire.validate_state EventWire.state_malformed
    EventWire.reason_mismatch EventWire.validate_events EventWire.validate_event EventWire.no_recall
    EventWire.record_bytes
sidecar_sent = refl

sidecar_decode-encode_example : EventWire.decode_sidecar sent_sidecar 224 ≡ (ok, some sidecar)
sidecar_decode-encode_example =
    sidecar_decode-encode sidecar 704 224 blank (omega arith) sidecar_sent

abbrev status : Status
status = record {
  state = 3;
  terminal_reason = 1;
  error_code = 0;
  flags = 33;
  session_id = 9;
  planned_dwells = 16;
  visits_started = 16;
  events_emitted = 16;
  next_event_sequence = 17;
  last_block_sequence = 30;
  last_block_end = 17000;
  first_counter = 1000;
  final_counter = 17000;
  restore_before = 17000;
  restore_after = 17010;
  restored_lo_frequency_hz = 1005;
  restore_error = 0;
  active_profile = 7;
  restored_profile = 0;
  startup_invalid_start = 0;
  startup_invalid_end = 10;
  device_dropped_events = 0;
}

abbrev sent_status : Wire
sent_status = (StatusWire.encode 160 status blank).1

status_sent : StatusWire.encode 160 status blank ≡ (ok, sent_status)
unfolding StatusWire.encode StatusWire.validate_status EventWire.validate_state
    EventWire.state_malformed EventWire.reason_mismatch
status_sent = refl

status_decode-encode_example : StatusWire.decode sent_status status_bytes ≡ (ok, some status)
status_decode-encode_example = status_decode-encode status 160 blank (omega arith) status_sent

-- an offset of -5
center_matches_lo_iff_example : (center_matches_lo 1000 1005 18446744073709551611 ≡ true) ↔ (
    (18446744073709551611 < 0x8000000000000000) × (1000 ≡ 1005 + 18446744073709551611)
    ⊎ (0x8000000000000000 ≤ 18446744073709551611) × (1000 + word64 ≡ 1005 + 18446744073709551611))
center_matches_lo_iff_example =
    center_matches_lo_iff 1000 1005 18446744073709551611 (omega arith) (omega arith) (omega arith)
