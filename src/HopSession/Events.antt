-- ===== src/HopSession/Events.antt =====
-- The device's events in iiod/spf-hop-session.c, for a session of version 1: a session that is
-- given no choices. The profiles go round in the order of their slots.
use Prim.Native.Nat.{bit_and}
use libiio.Prelude.{
  ℕ, ◌+◌, ◌-◌, ◌%◌, ltb, leb, ◌==◌, Bool, true, not, ◌&&◌, ◌||◌, if◌then◌else◌, List, [], ◌∷◌,
  get_or, add64, max64, erange, ebadmsg, eilseq,
}
use libiio.HopProtocol.{Profile, DeviceEvent, Event, profile_count, profile_none}
use libiio.HopProtocol.EventWire.{no_recall}
use libiio.HopProtocol.Wire.{center_matches_lo}
use libiio.HopSession.{Session, bits}
use libiio.HopSession.Counter.{extend_counter_near}

abbrev pub empty_profile : Profile
empty_profile = record {
  profile_id = 0;
  fastlock_slot = 0;
  center_frequency_hz = 0;
  lo_frequency_hz = 0;
  profile_crc32 = 0;
}

-- the place of the event in the plan; the source gives -EILSEQ if it is another
unfoldable pub out_of_order : Session → DeviceEvent → Bool
out_of_order s d =
    not (d.event_sequence == s.status.next_event_sequence)
    || not (d.dwell_index == s.status.visits_started)
    || leb s.request.dwell_count d.dwell_index
    || (if d.dwell_index == 0 then not (d.kind == 1) else not (d.kind == 2))

unfoldable pub expected_from : DeviceEvent → ℕ
expected_from d = if d.dwell_index == 0 then profile_none else (d.dwell_index - 1) % profile_count

-- the first test that gives -EBADMSG
unfoldable pub malformed : Session → DeviceEvent → Bool
unfolding no_recall expected_from
malformed s d =
    not (d.from_profile == expected_from d)
    || leb profile_count d.to_profile
    || not (d.to_profile == d.dwell_index % profile_count)
    || not (bit_and d.flags 0xf8 == 0)
    || not (bit_and d.flags 3 == 3)
    || (not (no_recall d) && d.device_event_id == 0)
    || (no_recall d
        && (not (d.kind == 2)
            || not (d.from_profile == d.to_profile)
            || not (d.device_event_id == 0)
            || not (d.transition_before == d.transition_after)))
    || ltb d.transition_after d.transition_before
    || (not (no_recall d) && ltb (max64 - s.request.transition_guard_samples) d.transition_after)

-- `last_event.invalid_end + dwell_samples` would overflow
unfoldable pub edge_overflows : Session → Bool
edge_overflows s = ltb (max64 - s.request.dwell_samples) s.last_event.invalid_end

-- the second: the profile that the device attests is not the requested one
unfoldable pub off_profile : Session → DeviceEvent → Bool
unfolding center_matches_lo
off_profile s d =
    let profile = get_or s.request.profiles d.to_profile empty_profile in
    not (d.fastlock_slot == profile.fastlock_slot)
    || not (d.actual_lo_frequency_hz == profile.lo_frequency_hz)
    || not (d.actual_if_offset_hz == s.request.if_offset_hz)
    || not (
        center_matches_lo profile.center_frequency_hz d.actual_lo_frequency_hz
          d.actual_if_offset_hz)

-- the event with its invalid span, which begins at the scheduled edge
unfoldable pub spanned : Session → DeviceEvent → Event
unfolding no_recall
spanned s d =
    let start =
      if s.have_last_event
      then s.last_event.invalid_end + s.request.dwell_samples
      else d.transition_before in
    record {
      device = d;
      invalid_start = start;
      invalid_end =
          (if no_recall d then start else d.transition_after + s.request.transition_guard_samples);
    }

-- the tests against the event before
unfoldable pub out_of_range : Session → Event → Bool
unfolding no_recall
out_of_range s e =
    ltb e.invalid_start s.last_event.invalid_end
    || (not (no_recall e.device) && ltb e.device.transition_before e.invalid_start)
    || (not (no_recall e.device) && leb e.device.device_event_id s.last_device_event_id)
    || (leb s.status.startup_invalid_start e.invalid_start
        && leb s.request.capture_span_samples (e.invalid_start - s.status.startup_invalid_start))

-- the end of `validate_device_event`
unfoldable pub validate_order : Session → Event → ℕ
unfolding out_of_range
validate_order s e =
    if s.have_last_event
    then (if out_of_range s e then bits erange else 0)
    else if not (e.device.event_sequence == 0) || not (e.device.dwell_index == 0)
    then bits eilseq
    else 0

-- 0, or the error of the first test that fails
unfoldable pub validate_device_event : Session → DeviceEvent → ℕ
unfolding out_of_order malformed edge_overflows off_profile spanned validate_order
validate_device_event s d =
    if out_of_order s d
    then bits eilseq
    else if malformed s d
    then bits ebadmsg
    else if s.have_last_event && edge_overflows s
    then bits erange
    else if off_profile s d
    then bits ebadmsg
    else validate_order s (spanned s d)

unfoldable pub accept_event : Session → Event → Session
accept_event s e =
    let first = e.device.event_sequence == 0 in
    record s {
      last_event = e;
      last_device_event_id =
          (if e.device.device_event_id == 0
            then s.last_device_event_id
            else e.device.device_event_id);
      have_last_event = true;
      status = record s.status {
        next_event_sequence = add64 s.status.next_event_sequence 1;
        visits_started = add64 s.status.visits_started 1;
        active_profile = e.device.to_profile;
        startup_invalid_start = (if first then e.invalid_start else s.status.startup_invalid_start);
        startup_invalid_end = (if first then e.invalid_end else s.status.startup_invalid_end);
        first_counter = (if first then e.invalid_start else s.status.first_counter);
      };
    }

-- the event's counters in the epoch of the block
unfoldable pub anchored : ℕ → DeviceEvent → DeviceEvent
unfolding extend_counter_near
anchored first_sample d =
    let before = extend_counter_near first_sample d.transition_before in
    record d {
      transition_before = before;
      transition_after = extend_counter_near before d.transition_after;
    }

-- The loop over the drained events, which the first error ends: that error or 0, the session and
-- the events that were accepted.
unfoldable pub take_events : List DeviceEvent → ℕ → Session → ℕ × Session × List Event
unfolding anchored validate_device_event spanned accept_event
take_events [] first_sample s = (0, s, [])
take_events (raw ∷ raws) first_sample s =
    let d = anchored first_sample raw in
    let e = spanned s d in
    let ret = validate_device_event s d in
    let (rest, s₂, es) = take_events raws first_sample (accept_event s e) in
    if ret == 0 then (rest, s₂, e ∷ es) else (ret, s, [])
