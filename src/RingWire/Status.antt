-- ===== src/RingWire/Status.antt =====
-- The status record of a DDR ring: iiod/spf-ddr-ring-status.c.
use Prim.Native.Nat.{bit_and}
use libiio.Prelude.{
  ℕ, ◌+◌, ◌-◌, ltb, ◌==◌, Bool, not, ◌||◌, if◌then◌else◌, Option, none, some, ℤ, ok, einval,
  eprotonosupport, eoverflow, max64,
}
use libiio.HopProtocol.Wire.{
  Wire, get_le16, get_le32, get_le64, put_le16, put_le32, put_le64, clear,
}

-- `struct spf_ddr_ring_status`; the error code is its bit pattern
pub record RingStatus : Type 0 where
  pub state : ℕ
  pub terminal_reason : ℕ
  pub valid_fields : ℕ
  pub error_code : ℕ
  pub requested_capacity_iq_bytes : ℕ
  pub admitted_capacity_iq_bytes : ℕ
  pub target_frames : ℕ
  pub produced_frames : ℕ
  pub consumed_frames : ℕ
  pub high_water_frames : ℕ
  pub wrap_count : ℕ
  pub producer_position : ℕ
  pub consumer_position : ℕ
  pub last_contiguous_sample_sequence : ℕ
  pub first_unavailable_sample_sequence : ℕ

-- The bits outside 3 of a uint32_t are those of 0xfffffffc.
unfoldable pub status_values_valid : RingStatus → Bool
status_values_valid s = not (
    ltb 6 s.state
    || ltb 8 s.terminal_reason
    || not (bit_and s.valid_fields 0xfffffffc == 0)
    || ltb s.produced_frames s.consumed_frames
    || ltb s.produced_frames s.high_water_frames)

-- `spf_ddr_ring_exclusive_boundary`
unfoldable pub exclusive_boundary : ℕ → ℕ → ℤ × Option ℕ
exclusive_boundary first_sample_sequence samples_per_frame =
    if samples_per_frame == 0
    then (einval, none)
    else if ltb (max64 - samples_per_frame) first_sample_sequence
    then (eoverflow, none)
    else (ok, some (first_sample_sequence + samples_per_frame))

unfoldable pub put_status : RingStatus → Wire → Wire
unfolding put_le64 put_le32 put_le16 clear
put_status s p = put_le64 104 s.first_unavailable_sample_sequence (
    put_le64 96 s.last_contiguous_sample_sequence (
      put_le64 88 s.consumer_position (
        put_le64 80 s.producer_position (
          put_le64 72 s.wrap_count (
            put_le64 64 s.high_water_frames (
              put_le64 56 s.consumed_frames (
                put_le64 48 s.produced_frames (
                  put_le64 40 s.target_frames (
                    put_le64 32 s.admitted_capacity_iq_bytes (
                      put_le64 24 s.requested_capacity_iq_bytes (
                        put_le32 20 s.error_code (
                          put_le32 16 s.valid_fields (
                            put_le32 12 s.terminal_reason (
                              put_le32 8 s.state (
                                put_le16 6 128 (
                                  put_le16 4 1 (put_le32 0 0x53524653 (clear 128 p))))))))))))))))))

-- `spf_ddr_ring_status_encode`
unfoldable pub encode : ℕ → RingStatus → Wire → ℤ × Wire
encode wire_bytes s p =
    if not (wire_bytes == 128)
    then (einval, p)
    else if not (status_values_valid s)
    then (einval, p)
    else (ok, put_status s p)

unfoldable pub get_status : Wire → RingStatus
get_status p = record {
  state = get_le32 p 8;
  terminal_reason = get_le32 p 12;
  valid_fields = get_le32 p 16;
  error_code = get_le32 p 20;
  requested_capacity_iq_bytes = get_le64 p 24;
  admitted_capacity_iq_bytes = get_le64 p 32;
  target_frames = get_le64 p 40;
  produced_frames = get_le64 p 48;
  consumed_frames = get_le64 p 56;
  high_water_frames = get_le64 p 64;
  wrap_count = get_le64 p 72;
  producer_position = get_le64 p 80;
  consumer_position = get_le64 p 88;
  last_contiguous_sample_sequence = get_le64 p 96;
  first_unavailable_sample_sequence = get_le64 p 104;
}

-- `spf_ddr_ring_status_decode`
unfoldable pub decode : Wire → ℕ → ℤ × Option RingStatus
decode p wire_bytes =
    if not (wire_bytes == 128)
    then (einval, none)
    else if not (get_le32 p 0 == 0x53524653) || not (get_le16 p 4 == 1) || not (get_le16 p 6 == 128)
    then (eprotonosupport, none)
    else if not (get_le64 p 112 == 0) || not (get_le64 p 120 == 0)
    then (einval, none)
    else if not (status_values_valid (get_status p))
    then (einval, none)
    else (ok, some (get_status p))
