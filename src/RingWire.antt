-- ===== src/RingWire.antt =====
-- The requests of a DDR ring and of a DDR burst: iiod/spf-ddr-ring-request.c and
-- iiod/spf-ddr-burst-request.c. Their static byte readers are those of the hop protocol.
pub mod Status
pub mod StatusTrip
pub mod Snapshot
mod Tests
use libiio.Prelude.{
  ℕ, ◌+◌, ◌*◌, leb, ◌==◌, Bool, not, ◌||◌, ◌&&◌, if◌then◌else◌, Option, none, some, ℤ, ok, einval,
  eprotonosupport, eopnotsupp,
}
use libiio.HopProtocol.Wire.{Wire, get_le16, get_le32, get_le64}

-- `struct spf_ddr_ring_request`
pub record RingRequest : Type 0 where
  pub required_features : ℕ
  pub flags : ℕ
  pub capacity_iq_bytes : ℕ
  pub capture_frames : ℕ

-- the fields that make a request no request of a ring
unfoldable pub ring_fields_invalid : RingRequest → Bool
ring_fields_invalid r =
    (not (r.flags == 1) && not (r.flags == 2) && not (r.flags == 4)) || r.capacity_iq_bytes == 0

-- `(flags == FINITE) != (frames != 0)`
unfoldable pub frames_mismatch : RingRequest → Bool
frames_mismatch r = if r.flags == 1 then r.capture_frames == 0 else not (r.capture_frames == 0)

unfoldable pub get_ring_request : Wire → RingRequest
get_ring_request p = record {
  required_features = get_le32 p 8;
  flags = get_le32 p 12;
  capacity_iq_bytes = get_le64 p 16;
  capture_frames = get_le64 p 24;
}

-- `spf_ddr_ring_request_decode`; the option is what it leaves in `*destination`
unfoldable pub decode_ring_request : Wire → ℕ → ℤ × Option RingRequest
unfolding ring_fields_invalid frames_mismatch get_ring_request
decode_ring_request p wire_bytes =
    let r = get_ring_request p in
    if not (wire_bytes == 48)
    then (einval, none)
    else if not (get_le32 p 0 == 0x52524653) || not (get_le16 p 4 == 1) || not (get_le16 p 6 == 48)
    then (eprotonosupport, none)
    else if not (r.required_features == 1)
    then (eprotonosupport, none)
    else if ring_fields_invalid r || not (get_le64 p 32 == 0) || not (get_le64 p 40 == 0)
    then (einval, none)
    else if frames_mismatch r
    then (einval, none)
    else (ok, some r)

-- `struct spf_ddr_burst_request`
pub record BurstRequest : Type 0 where
  pub required_features : ℕ
  pub requested_iq_bytes : ℕ

-- `spf_ddr_burst_request_decode`; what a failing call leaves in `*destination` is left open
unfoldable pub decode_burst_request : Wire → ℕ → ℤ × Option BurstRequest
decode_burst_request p wire_bytes =
    if not (wire_bytes == 32)
    then (einval, none)
    else if not (get_le32 p 0 == 0x42524653) || not (get_le16 p 4 == 1) || not (get_le16 p 6 == 32)
    then (eprotonosupport, none)
    else if not (get_le32 p 8 == 1)
    then (eprotonosupport, none)
    else if not (get_le32 p 12 == 0) || not (get_le64 p 24 == 0)
    then (einval, none)
    else if get_le64 p 16 == 0
    then (einval, none)
    else (
      ok,
      some (record { required_features = get_le32 p 8; requested_iq_bytes = get_le64 p 16 }),
    )

-- `spf_ddr_burst_validate_frame_period`; the products of 32-bit numbers fit into 64 bits
unfoldable pub validate_frame_period : ℕ → ℕ → ℤ
validate_frame_period samples_per_channel sample_rate_hz =
    if samples_per_channel == 0 || sample_rate_hz == 0
    then einval
    else if leb (sample_rate_hz * 12000) (samples_per_channel * 1000000)
    then ok
    else eopnotsupp
