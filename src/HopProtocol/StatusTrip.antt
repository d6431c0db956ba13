-- ===== src/HopProtocol/StatusTrip.antt =====
-- What the status encoder of iiod/spf-hop-protocol.c writes, its decoder reads back.
use libiio.Prelude.{ℕ, ◌<◌, ◌≡◌, refl, some, arith, word32, word64, ok, subst}
use libiio.HopProtocol.{Status, status_magic, protocol_version, status_bytes, required_features_v1}
use libiio.HopProtocol.Wire.{Wire, get_le16, get_le32, get_le64}
use libiio.HopProtocol.StatusWire.{put_status, get_status, validate_status, encode, decode}

-- The fields have the widths of the C types.
pub record StatusFits (s : Status) : Type 0 where
  pub state : s.state < 0x10000
  pub terminal_reason : s.terminal_reason < 0x10000
  pub error_code : s.error_code < word32
  pub flags : s.flags < word32
  pub session_id : s.session_id < word64
  pub planned_dwells : s.planned_dwells < word64
  pub visits_started : s.visits_started < word64
  pub events_emitted : s.events_emitted < word64
  pub next_event_sequence : s.next_event_sequence < word64
  pub last_block_sequence : s.last_block_sequence < word64
  pub last_block_end : s.last_block_end < word64
  pub first_counter : s.first_counter < word64
  pub final_counter : s.final_counter < word64
  pub restore_before : s.restore_before < word64
  pub restore_after : s.restore_after < word64
  pub restored_lo_frequency_hz : s.restored_lo_frequency_hz < word64
  pub restore_error : s.restore_error < word32
  pub active_profile : s.active_profile < 256
  pub restored_profile : s.restored_profile < 256
  pub startup_invalid_start : s.startup_invalid_start < word64
  pub startup_invalid_end : s.startup_invalid_end < word64
  pub device_dropped_events : s.device_dropped_events < word64

fields_trip : (s : Status) (p : Wire) → StatusFits s → get_status (put_status s p) ≡ s
unfolding get_status put_status get_le16 get_le32 get_le64
fields_trip s p fits = ground arith

constants_sent :
    (s : Status) (p : Wire)
    → (get_le32 (put_status s p) 0 ≡ status_magic)
      × (get_le16 (put_status s p) 4 ≡ protocol_version)
      × (get_le16 (put_status s p) 6 ≡ status_bytes)
      × (get_le32 (put_status s p) 8 ≡ required_features_v1)
      × (get_le16 (put_status s p) 126 ≡ 0)
      × (get_le64 (put_status s p) 152 ≡ 0)
unfolding put_status get_le16 get_le32 get_le64
constants_sent s p = (refl, refl, refl, refl, refl, refl)

decode-sent :
    (s : Status) (p : Wire)
    → StatusFits s
    → validate_status s ≡ ok
    → decode (put_status s p) status_bytes ≡ (ok, some s)
unfolding decode
decode-sent s p fits v =
    let c = constants_sent s p in rw (c.0, c.1, c.2, c.3, c.4, c.5, fields_trip s p fits, v)

-- A status whose fields have the widths of the C types and that the encoder accepts is decoded to
-- itself from the bytes that it wrote.
pub status_decode-encode :
    (s : Status) (bytes : ℕ) (p : Wire) {sent : Wire}
    → StatusFits s
    → encode bytes s p ≡ (ok, sent)
    → decode sent status_bytes ≡ (ok, some s)
unfolding encode
status_decode-encode s bytes p {sent} fits e =
    let v : validate_status s ≡ ok = ground arith in
    let same : put_status s p ≡ sent = ground (arith, v) in
    subst (λ q. decode q status_bytes ≡ (ok, some s)) same (decode-sent s p fits v)
