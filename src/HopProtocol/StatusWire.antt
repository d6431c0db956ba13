-- ===== src/HopProtocol/StatusWire.antt =====
-- The status record of iiod/spf-hop-protocol.c: encoder and decoder.
use libiio.Prelude.{
  ℕ, ltb, leb, ◌==◌, not, ◌||◌, ◌&&◌, if◌then◌else◌, Option, none, some, ℤ, ok, einval, emsgsize,
  eprotonosupport, ebadmsg, enospc, is_zero,
}
use libiio.HopProtocol.{
  Status, profile_count, profile_none, status_magic, protocol_version, status_bytes,
  required_features_v1,
}
use libiio.HopProtocol.Wire.{
  Wire, put_byte, get_le16, get_le32, get_le64, put_le16, put_le32, put_le64, clear,
}
use libiio.HopProtocol.EventWire.{validate_state}

-- the tests that both directions make
unfoldable pub validate_status : Status → ℤ
validate_status s =
    let ret = validate_state s.state s.terminal_reason s.error_code s.flags in
    if is_zero ret
      && (s.session_id == 0
          || s.planned_dwells == 0
          || (not (s.active_profile == profile_none) && leb profile_count s.active_profile)
          || (not (s.restored_profile == profile_none) && leb profile_count s.restored_profile))
    then einval
    else ret

unfoldable pub put_status : Status → Wire → Wire
unfolding put_le64 put_le32 put_le16 clear
put_status s p = put_le64 144 s.device_dropped_events (
    put_le64 136 s.startup_invalid_end (
      put_le64 128 s.startup_invalid_start (
        put_byte 125 s.restored_profile (
          put_byte 124 s.active_profile (
            put_le32 120 s.restore_error (
              put_le64 112 s.restored_lo_frequency_hz (
                put_le64 104 s.restore_after (
                  put_le64 96 s.restore_before (
                    put_le64 88 s.final_counter (
                      put_le64 80 s.first_counter (
                        put_le64 72 s.last_block_end (
                          put_le64 64 s.last_block_sequence (
                            put_le64 56 s.next_event_sequence (
                              put_le64 48 s.events_emitted (
                                put_le64 40 s.visits_started (
                                  put_le64 32 s.planned_dwells (
                                    put_le64 24 s.session_id (
                                      put_le32 20 s.flags (
                                        put_le32 16 s.error_code (
                                          put_le16 14 s.terminal_reason (
                                            put_le16 12 s.state (
                                              put_le32 8 required_features_v1 (
                                                put_le16 6 status_bytes (
                                                  put_le16 4 protocol_version (
                                                    put_le32 0 status_magic (
                                                      clear status_bytes p))))))))))))))))))))))))))

unfoldable pub encode : ℕ → Status → Wire → ℤ × Wire
encode wire_bytes s p =
    let ret = validate_status s in
    if ltb wire_bytes status_bytes
    then (enospc, p)
    else if not (is_zero ret)
    then (ret, p)
    else (ok, put_status s p)

unfoldable pub get_status : Wire → Status
get_status p = record {
  state = get_le16 p 12;
  terminal_reason = get_le16 p 14;
  error_code = get_le32 p 16;
  flags = get_le32 p 20;
  session_id = get_le64 p 24;
  planned_dwells = get_le64 p 32;
  visits_started = get_le64 p 40;
  events_emitted = get_le64 p 48;
  next_event_sequence = get_le64 p 56;
  last_block_sequence = get_le64 p 64;
  last_block_end = get_le64 p 72;
  first_counter = get_le64 p 80;
  final_counter = get_le64 p 88;
  restore_before = get_le64 p 96;
  restore_after = get_le64 p 104;
  restored_lo_frequency_hz = get_le64 p 112;
  restore_error = get_le32 p 120;
  active_profile = p 124;
  restored_profile = p 125;
  startup_invalid_start = get_le64 p 128;
  startup_invalid_end = get_le64 p 136;
  device_dropped_events = get_le64 p 144;
}

-- The option is what the decoder leaves in `*status` when it returns 0.
unfoldable pub decode : Wire → ℕ → ℤ × Option Status
decode p wire_bytes =
    if not (wire_bytes == status_bytes)
    then (emsgsize, none)
    else if not (get_le32 p 0 == status_magic)
        || not (get_le16 p 4 == protocol_version)
        || not (get_le16 p 6 == status_bytes)
    then (eprotonosupport, none)
    else if not (get_le32 p 8 == required_features_v1)
        || not (get_le16 p 126 == 0)
        || not (get_le64 p 152 == 0)
    then (ebadmsg, none)
    else if is_zero (validate_status (get_status p))
    then (ok, some (get_status p))
    else (ebadmsg, none)
