-- ===== src/HopSession.antt =====
-- iiod/spf-hop-session.h: the session that carries out one hop plan, and the device under it. An int
-- is its 32-bit pattern, as the status record holds it: 0 for success, `bits e` for an errno.
pub mod Counter
pub mod Restore
pub mod Events
pub mod Ops
pub mod Inv
pub mod Live
pub mod Run
pub mod Frame
pub mod Once
pub mod Sendable
pub mod Encode
pub mod Plan
pub mod Aligned
pub mod Whole
pub mod Reaching
pub mod Complete
pub mod UnderWay
pub mod Ending
pub mod Covered
mod Tests
use libiio.Prelude.{ℕ, suc, ◌-◌, Bool, List, ℤ, pos, negsuc, word32}
use libiio.HopProtocol.{Request, DeviceEvent, Event, Status}

abbrev pub bits : ℤ → ℕ
bits (pos n) = n
bits (negsuc n) = word32 - suc n

-- `SPF_HOP_STATE_*`
abbrev pub idle : ℕ
idle = 0

abbrev pub armed : ℕ
armed = 1

abbrev pub running : ℕ
running = 2

abbrev pub completed : ℕ
completed = 3

abbrev pub cancelled : ℕ
cancelled = 4

abbrev pub failed : ℕ
failed = 5

-- `SPF_HOP_REASON_*`
abbrev pub plan_complete : ℕ
plan_complete = 1

abbrev pub client_close : ℕ
client_close = 2

abbrev pub client_disconnect : ℕ
client_disconnect = 3

abbrev pub device_error : ℕ
device_error = 4

abbrev pub event_overflow : ℕ
event_overflow = 5

abbrev pub event_order : ℕ
event_order = 6

abbrev pub counter_discontinuity : ℕ
counter_discontinuity = 7

abbrev pub protocol_error : ℕ
protocol_error = 8

abbrev pub restore_failed : ℕ
restore_failed = 9

-- `struct spf_hop_restore_receipt_v1`
pub record Receipt : Type 0 where
  pub transition_before : ℕ
  pub transition_after : ℕ
  pub restored_lo_frequency_hz : ℕ
  pub error_code : ℕ
  pub restored_profile : ℕ
  pub flags : ℕ

-- what a call of `drain_events` gives: its status, the events it counted and the drops
pub record Drained : Type 0 where
  pub ret : ℕ
  pub events : List DeviceEvent
  pub dropped : ℕ

-- `struct spf_hop_device_ops_v1` on a device of states `D`
pub record DeviceOps (D : Type 0) : Type 0 where
  pub submit_plan : D → Request → ℕ × D
  pub drain_events : D → Drained × D
  pub cancel_restore : D → ℕ → (ℕ × Receipt) × D

-- `struct spf_hop_session_v1` less its operations and its device, which the calls are given
pub record Session : Type 0 where
  pub request : Request
  pub status : Status
  pub last_event : Event
  pub last_device_event_id : ℕ
  pub terminal_error : ℕ
  pub have_last_event : Bool
  pub have_last_block : Bool
  pub restore_called : Bool
