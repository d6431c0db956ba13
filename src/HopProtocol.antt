-- ===== src/HopProtocol.antt =====
-- iiod/spf-hop-protocol.c and its header: the records of the hop protocol and the constants of
-- their wire format. A signed field is its bit pattern, as the encoder writes it.
pub mod Wire
pub mod RequestWire
pub mod EventWire
pub mod StatusWire
pub mod RequestTrip
pub mod EventTrip
pub mod StatusTrip
mod Tests
use libiio.Prelude.{ℕ, List}

abbrev pub profile_count : ℕ
profile_count = 8

abbrev pub event_capacity : ℕ
event_capacity = 8

abbrev pub request_magic : ℕ
request_magic = 0x52504f48

abbrev pub sidecar_magic : ℕ
sidecar_magic = 0x53504f48

abbrev pub status_magic : ℕ
status_magic = 0x54504f48

abbrev pub protocol_version : ℕ
protocol_version = 1

abbrev pub request_bytes : ℕ
request_bytes = 288

abbrev pub sidecar_header_bytes : ℕ
sidecar_header_bytes = 64

abbrev pub event_bytes : ℕ
event_bytes = 80

abbrev pub status_bytes : ℕ
status_bytes = 160

abbrev pub required_features_v1 : ℕ
required_features_v1 = 0x1f

abbrev pub request_flags_v1 : ℕ
request_flags_v1 = 0x03

abbrev pub profile_none : ℕ
profile_none = 0xff

-- `struct spf_hop_profile_v1`
pub record Profile : Type 0 where
  pub profile_id : ℕ
  pub fastlock_slot : ℕ
  pub center_frequency_hz : ℕ
  pub lo_frequency_hz : ℕ
  pub profile_crc32 : ℕ

-- `struct spf_hop_request_v1`
pub record Request : Type 0 where
  pub required_features : ℕ
  pub flags : ℕ
  pub session_id : ℕ
  pub sample_rate_hz : ℕ
  pub rf_bandwidth_hz : ℕ
  pub if_offset_hz : ℕ
  pub dwell_samples : ℕ
  pub transition_guard_samples : ℕ
  pub dwell_count : ℕ
  pub capture_span_samples : ℕ
  pub initial_profile : ℕ
  pub profiles : List Profile

-- `struct spf_hop_device_event_v1`
pub record DeviceEvent : Type 0 where
  pub event_sequence : ℕ
  pub dwell_index : ℕ
  pub transition_before : ℕ
  pub transition_after : ℕ
  pub actual_lo_frequency_hz : ℕ
  pub actual_if_offset_hz : ℕ
  pub device_event_id : ℕ
  pub from_profile : ℕ
  pub to_profile : ℕ
  pub kind : ℕ
  pub flags : ℕ
  pub fastlock_slot : ℕ

-- `struct spf_hop_event_v1`
pub record Event : Type 0 where
  pub device : DeviceEvent
  pub invalid_start : ℕ
  pub invalid_end : ℕ

-- `struct spf_hop_sidecar_v1`; the list holds its first `event_count` events
pub record Sidecar : Type 0 where
  pub flags : ℕ
  pub session_id : ℕ
  pub buffer_sequence : ℕ
  pub block_first_sample : ℕ
  pub block_end_sample : ℕ
  pub state : ℕ
  pub terminal_reason : ℕ
  pub error_code : ℕ
  pub events : List Event

-- `struct spf_hop_status_v1`
pub record Status : Type 0 where
  pub state : ℕ
  pub terminal_reason : ℕ
  pub error_code : ℕ
  pub flags : ℕ
  pub session_id : ℕ
  pub planned_dwells : ℕ
  pub visits_started : ℕ
  pub events_emitted : ℕ
  pub next_event_sequence : ℕ
  pub last_block_sequence : ℕ
  pub last_block_end : ℕ
  pub first_counter : ℕ
  pub final_counter : ℕ
  pub restore_before : ℕ
  pub restore_after : ℕ
  pub restored_lo_frequency_hz : ℕ
  pub restore_error : ℕ
  pub active_profile : ℕ
  pub restored_profile : ℕ
  pub startup_invalid_start : ℕ
  pub startup_invalid_end : ℕ
  pub device_dropped_events : ℕ
