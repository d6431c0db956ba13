-- ===== src/HopProtocol/EventWire.antt =====
-- The events and the sidecar of iiod/spf-hop-protocol.c: validation, encoder and decoder.
use Prim.Native.Nat.{bit_and}
use libiio.Prelude.{
  ℕ, zero, suc, ◌+◌, ◌*◌, ltb, leb, ◌==◌, Bool, not, ◌||◌, ◌&&◌, if◌then◌else◌, List, [], ◌∷◌,
  length, Option, none, some, ℤ, pos, ok, einval, emsgsize, eprotonosupport, ebadmsg, enospc,
  is_zero,
}
use libiio.HopProtocol.{
  DeviceEvent, Event, Sidecar, profile_count, event_capacity, sidecar_magic, protocol_version,
  sidecar_header_bytes, event_bytes, required_features_v1,
}
use libiio.HopProtocol.Wire.{
  Wire, put_byte, get_le16, get_le32, get_le64, put_le16, put_le32, put_le64, clear, from, through,
}

-- `device->flags & SPF_HOP_EVENT_NO_RECALL`
unfoldable pub no_recall : DeviceEvent → Bool
no_recall d = not (bit_and d.flags 4 == 0)

-- The flag bits outside 0x07 are those of 0xf8 in a byte.
unfoldable pub validate_event : Event → ℤ
unfolding no_recall
validate_event e =
    let d = e.device in
    if not (bit_and d.flags 0xf8 == 0)
      || not (bit_and d.flags 3 == 3)
      || (not (d.kind == 1) && not (d.kind == 2))
      || leb profile_count d.to_profile
      || leb profile_count d.fastlock_slot
      || ltb d.transition_after d.transition_before
      || (not (no_recall d)
          && (d.device_event_id == 0
              || ltb d.transition_before e.invalid_start
              || ltb e.invalid_end d.transition_after))
      || (no_recall d
          && (not (d.kind == 2)
              || not (d.from_profile == d.to_profile)
              || not (d.device_event_id == 0)
              || not (d.transition_before == d.transition_after)
              || not (e.invalid_start == e.invalid_end)))
    then einval
    else ok

-- the event that stands at `p`
unfoldable pub get_event : Wire → Event
get_event p = record {
  device = record {
    event_sequence = get_le64 p 0;
    dwell_index = get_le64 p 8;
    transition_before = get_le64 p 16;
    transition_after = get_le64 p 24;
    actual_lo_frequency_hz = get_le64 p 56;
    actual_if_offset_hz = get_le64 p 64;
    device_event_id = get_le64 p 72;
    from_profile = p 48;
    to_profile = p 49;
    kind = p 50;
    flags = p 51;
    fastlock_slot = get_le16 p 52;
  };
  invalid_start = get_le64 p 32;
  invalid_end = get_le64 p 40;
}

unfoldable pub decode_event : Wire → ℤ × Event
decode_event p =
    if not (get_le16 p 54 == 0)
    then (ebadmsg, get_event p)
    else (validate_event (get_event p), get_event p)

-- the counters at the head of an event
unfoldable pub put_counters : Event → Wire → Wire
unfolding put_le64
put_counters e p =
    let d = e.device in
    put_le64 40 e.invalid_end (
      put_le64 32 e.invalid_start (
        put_le64 24 d.transition_after (
          put_le64 16 d.transition_before
            (put_le64 8 d.dwell_index (put_le64 0 d.event_sequence p)))))

-- the rest of it
unfoldable pub put_profile_change : Event → Wire → Wire
unfolding put_le64 put_le16
put_profile_change e p =
    let d = e.device in
    put_le64 72 d.device_event_id (
      put_le64 64 d.actual_if_offset_hz (
        put_le64 56 d.actual_lo_frequency_hz (
          put_le16 52 d.fastlock_slot (
            put_byte 51 d.flags
              (put_byte 50 d.kind (put_byte 49 d.to_profile (put_byte 48 d.from_profile p)))))))

unfoldable pub encode_event : Event → Wire → Wire
encode_event e p = put_profile_change e (put_counters e p)

-- is a 32-bit pattern that of a negative int32_t?
abbrev pub negative32 : ℕ → Bool
negative32 w = leb 0x80000000 w

-- unknown values, or a final flag that does not match the state
unfoldable pub state_malformed : ℕ → ℕ → ℕ → Bool
state_malformed state reason flags =
    let bit = λ (b : ℕ). not (bit_and flags b == 0) in
    ltb 5 state
    || ltb 9 reason
    || not (bit_and flags 0xffffffc0 == 0)
    || not (bit 32)
    || (bit 16 && not (bit 8))
    || (leb 3 state && not (bit 1))
    || (ltb state 3 && bit 1)

-- `state >= SPF_HOP_STATE_COMPLETED` is `3 ≤ state`; the reasons by their numbers
unfoldable pub reason_mismatch : ℕ → ℕ → ℕ → Bool
reason_mismatch state reason error =
    (ltb state 3 && (not (reason == 0) || not (error == 0)))
    || (state == 3 && (not (reason == 1) || not (error == 0)))
    || (state == 4 && (not (reason == 2) && not (reason == 3)))
    || (state == 4 && not (error == 0))
    || (state == 5
        && (reason == 0 || reason == 1 || reason == 2 || reason == 3 || not (negative32 error)))

-- The source returns -EINVAL from each of the tests in turn.
unfoldable pub validate_state : ℕ → ℕ → ℕ → ℕ → ℤ
validate_state state reason error flags =
    if state_malformed state reason flags || reason_mismatch state reason error then einval else ok

-- the loops over the events; the first error ends them
unfoldable pub validate_events : List Event → ℤ
validate_events [] = ok
validate_events (e ∷ es) =
    let rest = validate_events es in if is_zero (validate_event e) then rest else validate_event e

unfoldable pub decode_events : Wire → ℕ → ℕ → ℤ × List Event
decode_events p at zero = (ok, [])
decode_events p at (suc n) =
    let (ret, e) = decode_event (from at p) in
    let (rest, es) = decode_events p (at + event_bytes) n in
    if is_zero ret then (rest, e ∷ es) else (ret, e ∷ [])

unfoldable pub encode_events : ℕ → List Event → Wire → Wire
encode_events at [] p = p
encode_events at (e ∷ es) p = encode_events (at + event_bytes) es (through at (encode_event e) p)

unfoldable pub record_bytes : Sidecar → ℕ
record_bytes s = sidecar_header_bytes + length s.events * event_bytes

-- the header of the sidecar, over a cleared record
unfoldable pub put_sidecar : Sidecar → Wire → Wire
unfolding put_le64 put_le32 put_le16 clear
put_sidecar s p = put_le32 60 s.error_code (
    put_le16 58 s.terminal_reason (
      put_le16 56 s.state (
        put_le64 48 s.block_end_sample (
          put_le64 40 s.block_first_sample (
            put_le64 32 s.buffer_sequence (
              put_le64 24 s.session_id (
                put_le16 22 event_capacity (
                  put_le16 20 (length s.events) (
                    put_le32 16 s.flags (
                      put_le32 12 required_features_v1 (
                        put_le32 8 (record_bytes s) (
                          put_le16 6 sidecar_header_bytes (
                            put_le16 4 protocol_version
                              (put_le32 0 sidecar_magic (clear (record_bytes s) p)))))))))))))))

-- A non-negative result is the number of bytes written.
unfoldable pub encode_sidecar : ℕ → Sidecar → Wire → ℤ × Wire
encode_sidecar wire_bytes s p =
    let ret = validate_state s.state s.terminal_reason s.error_code s.flags in
    if ltb event_capacity (length s.events)
    then (einval, p)
    else if ltb wire_bytes (record_bytes s)
    then (enospc, p)
    else if not (is_zero ret)
    then (ret, p)
    else if s.session_id == 0 || leb s.block_end_sample s.block_first_sample
    then (einval, p)
    else if not (is_zero (validate_events s.events))
    then (validate_events s.events, p)
    else (pos (record_bytes s), encode_events sidecar_header_bytes s.events (put_sidecar s p))

unfoldable pub get_sidecar : Wire → List Event → Sidecar
get_sidecar p events = record {
  flags = get_le32 p 16;
  session_id = get_le64 p 24;
  buffer_sequence = get_le64 p 32;
  block_first_sample = get_le64 p 40;
  block_end_sample = get_le64 p 48;
  state = get_le16 p 56;
  terminal_reason = get_le16 p 58;
  error_code = get_le32 p 60;
  events = events;
}

-- The option is what the decoder leaves in `*sidecar` when it returns 0.
unfoldable pub decode_sidecar : Wire → ℕ → ℤ × Option Sidecar
decode_sidecar p wire_bytes =
    if ltb wire_bytes sidecar_header_bytes
    then (emsgsize, none)
    else if not (get_le32 p 0 == sidecar_magic)
        || not (get_le16 p 4 == protocol_version)
        || not (get_le16 p 6 == sidecar_header_bytes)
    then (eprotonosupport, none)
    else if not (get_le32 p 8 == wire_bytes)
        || not (get_le32 p 12 == required_features_v1)
        || ltb event_capacity (get_le16 p 20)
        || not (get_le16 p 22 == event_capacity)
        || not (get_le32 p 8 == sidecar_header_bytes + get_le16 p 20 * event_bytes)
    then (ebadmsg, none)
    else (let header = get_sidecar p [] in
        if not (
            is_zero
              (validate_state header.state header.terminal_reason header.error_code header.flags))
          || header.session_id == 0
          || leb header.block_end_sample header.block_first_sample
        then (ebadmsg, none)
        else (let (ret, events) = decode_events p sidecar_header_bytes (get_le16 p 20) in
            if is_zero ret then (ok, some (get_sidecar p events)) else (ret, none)))
