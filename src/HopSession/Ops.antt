-- ===== src/HopSession/Ops.antt =====
-- The calls of iiod/spf-hop-session.c for a session of version 1.
use libiio.Prelude.{
  ℕ, ◌+◌, ◌-◌, ◌/◌, ltb, leb, ◌==◌, Bool, true, false, not, ◌&&◌, ◌||◌, if◌then◌else◌, List, length,
  Option, none, some, add64, max64, ℤ, is_zero, einval, eilseq, eoverflow,
}
use libiio.HopProtocol.{
  Request, Event, Sidecar, Status, event_capacity, request_bytes, profile_none,
}
use libiio.HopProtocol.Wire.{Wire}
use libiio.HopProtocol.RequestWire
use libiio.HopSession.{
  Session, Drained, DeviceOps, bits, idle, armed, running, completed, cancelled, plan_complete,
  client_close, client_disconnect, device_error, event_overflow, event_order, counter_discontinuity,
  protocol_error,
}
use libiio.HopSession.Restore.{terminal, normalize_error, restore, fail}
use libiio.HopSession.Events.{take_events, edge_overflows}

abbrev empty_event : Event
empty_event = record {
  device = record {
    event_sequence = 0;
    dwell_index = 0;
    transition_before = 0;
    transition_after = 0;
    actual_lo_frequency_hz = 0;
    actual_if_offset_hz = 0;
    device_event_id = 0;
    from_profile = 0;
    to_profile = 0;
    kind = 0;
    flags = 0;
    fastlock_slot = 0;
  };
  invalid_start = 0;
  invalid_end = 0;
}

abbrev initial_status : Request → Status
initial_status r = record {
  state = idle;
  terminal_reason = 0;
  error_code = 0;
  flags = 32;
  session_id = r.session_id;
  planned_dwells = r.dwell_count;
  visits_started = 0;
  events_emitted = 0;
  next_event_sequence = 0;
  last_block_sequence = 0;
  last_block_end = 0;
  first_counter = 0;
  final_counter = 0;
  restore_before = 0;
  restore_after = 0;
  restored_lo_frequency_hz = 0;
  restore_error = 0;
  active_profile = profile_none;
  restored_profile = profile_none;
  startup_invalid_start = 0;
  startup_invalid_end = 0;
  device_dropped_events = 0;
}

unfoldable pub fresh : Request → Session
fresh r = record {
  request = r;
  status = initial_status r;
  last_event = empty_event;
  last_device_event_id = 0;
  terminal_error = 0;
  have_last_event = false;
  have_last_block = false;
  restore_called = false;
}

-- the session that the status of the validation leaves
unfoldable pub opened : ℤ → Request → ℕ × Option Session
opened ret r = if is_zero ret then (0, some (fresh r)) else (bits ret, none)

-- `spf_hop_session_v1_init`; the request is validated by encoding it
unfoldable pub init : Wire → Request → ℕ × Option Session
unfolding opened
init wire r = opened (RequestWire.encode request_bytes r wire).0 r

unfoldable pub entering : Session → ℕ → Session
entering s state = record s { status = record s.status { state = state } }

-- `spf_hop_session_v1_arm`
unfoldable pub arm : Session → ℕ × Session
unfolding entering
arm s = if s.status.state == idle then (0, entering s armed) else (bits einval, s)

-- the sequence number that the block after the last one should have; `none` on overflow
unfoldable pub expected_sequence : Session → ℕ → ℕ → Option ℕ
expected_sequence s first_sample block_end =
    let sparse = s.request.sample_rate_hz == 15000000 || s.request.sample_rate_hz == 20000000 in
    let skipped =
      if sparse then (first_sample - s.status.last_block_end) / (block_end - first_sample) else 0 in
    if ltb (max64 - 1 - skipped) s.status.last_block_sequence
    then none
    else some (s.status.last_block_sequence + 1 + skipped)

-- does the block follow the one before? Only at 15 and 20 Msps may blocks be missing.
unfoldable pub discontinuous : Session → ℕ → ℕ → ℕ → Bool
unfolding expected_sequence
discontinuous s buffer_sequence first_sample block_end =
    let sparse = s.request.sample_rate_hz == 15000000 || s.request.sample_rate_hz == 20000000 in
    s.have_last_block
    && (ltb first_sample s.status.last_block_end
        || elim (expected_sequence s first_sample block_end) [
          | none ↦ true
          | some sequence ↦
              not (buffer_sequence == sequence)
              || (not sparse && not (first_sample == s.status.last_block_end))
        ])

unfoldable pub with_block : Session → ℕ → ℕ → Session
with_block s buffer_sequence block_end = record s {
  have_last_block = true;
  status = record s.status { last_block_sequence = buffer_sequence; last_block_end = block_end };
}

unfoldable pub sidecar_of : Session → ℕ → ℕ → ℕ → List Event → Sidecar
sidecar_of s buffer_sequence first_sample block_end events = record {
  flags = s.status.flags;
  session_id = s.request.session_id;
  buffer_sequence = buffer_sequence;
  block_first_sample = first_sample;
  block_end_sample = block_end;
  state = s.status.state;
  terminal_reason = s.status.terminal_reason;
  error_code = s.status.error_code;
  events = events;
}

unfoldable pub emitted : Session → ℕ → Session
emitted s count = record s {
  status = record s.status { events_emitted = add64 s.status.events_emitted count };
}

unfoldable pub with_dropped : Session → ℕ → Session
with_dropped s dropped = record s { status = record s.status { device_dropped_events = dropped } }

abbrev pub no_sidecar : {D : Type 0} → (ℕ × Session) × D → (ℕ × Option Sidecar × Session) × D
no_sidecar ((ret, s), d) = ((ret, none, s), d)

module _ {D : Type 0} (ops : DeviceOps D) where
  -- `spf_hop_session_v1_start`
  unfoldable pub start : D → Session → (ℕ × Session) × D
  unfolding normalize_error entering
  start d s =
      let (ret, d₂) = ops.submit_plan d s.request in
      if not (s.status.state == idle) && not (s.status.state == armed)
      then ((bits einval, s), d)
      else if not (normalize_error ret == 0)
      then fail ops d₂ (entering s armed) device_error (normalize_error ret)
      else ((0, entering s running), d₂)

  unfoldable pub maybe_complete : D → Session → ℕ → (ℕ × Session) × D
  unfolding edge_overflows
  maybe_complete d s block_end =
      let final_counter = s.last_event.invalid_end + s.request.dwell_samples in
      if not s.have_last_event
      then ((0, s), d)
      else if edge_overflows s
      then fail ops d s protocol_error (bits eoverflow)
      else if ltb final_counter s.status.startup_invalid_start
          || ltb (final_counter - s.status.startup_invalid_start) s.request.capture_span_samples
          || ltb block_end final_counter
      then ((0, s), d)
      else restore ops d s plan_complete completed final_counter

  -- the end of `session_on_block`: the events are accepted
  unfoldable pub finish_block :
      D → Session → ℕ → ℕ → ℕ → List Event → (ℕ × Option Sidecar × Session) × D
  unfolding maybe_complete with_block sidecar_of emitted
  finish_block d s buffer_sequence first_sample block_end events =
      let ((ret, s₂), d₂) = maybe_complete d (with_block s buffer_sequence block_end) block_end in
      if ret == 0
      then (
        (
          0,
          some (sidecar_of s₂ buffer_sequence first_sample block_end events),
          emitted s₂ (length events),
        ),
        d₂,
      )
      else ((ret, none, s₂), d₂)

  -- the part of it after the events are drained
  unfoldable pub drained_block :
      D → Session → Drained → ℕ → ℕ → ℕ → (ℕ × Option Sidecar × Session) × D
  unfolding normalize_error with_dropped take_events finish_block
  drained_block d s drained buffer_sequence first_sample block_end =
      let counted = with_dropped s drained.dropped in
      let (error, s₂, events) = take_events drained.events first_sample counted in
      if not (normalize_error drained.ret == 0)
      then no_sidecar (fail ops d s device_error (normalize_error drained.ret))
      else if ltb event_capacity (length drained.events)
      then no_sidecar (fail ops d s protocol_error (bits eoverflow))
      else if not (drained.dropped == 0)
      then no_sidecar (fail ops d counted event_overflow (bits eoverflow))
      else if not (error == 0)
      then no_sidecar
          (fail ops d s₂ (if error == bits eilseq then event_order else protocol_error) error)
      else finish_block d s₂ buffer_sequence first_sample block_end events

  -- `session_on_block` with no choices. The option is the sidecar of a block that returns 0; what
  -- stands in it after an error is left open.
  unfoldable pub on_block : D → Session → ℕ → ℕ → ℕ → (ℕ × Option Sidecar × Session) × D
  unfolding discontinuous drained_block
  on_block d s buffer_sequence first_sample block_end =
      let (drained, d₂) = ops.drain_events d in
      if not (s.status.state == running) || leb block_end first_sample
      then ((bits einval, none, s), d)
      else if discontinuous s buffer_sequence first_sample block_end
      then no_sidecar (fail ops d s counter_discontinuity (bits eilseq))
      else drained_block d₂ s drained buffer_sequence first_sample block_end

  -- `spf_hop_session_v1_cancel`
  unfoldable pub cancel : D → Session → ℕ → (ℕ × Session) × D
  unfolding terminal restore
  cancel d s reason =
      if not (reason == client_close) && not (reason == client_disconnect)
      then ((bits einval, s), d)
      else if terminal s
      then ((s.status.restore_error, s), d)
      else restore ops d s reason cancelled 0
