-- ===== src/RingWire/StatusTrip.antt =====
-- What the encoder of iiod/spf-ddr-ring-status.c writes, its decoder reads back.
use libiio.Prelude.{◌<◌, ◌≡◌, refl, true, some, arith, word32, word64, ok, subst}
use libiio.HopProtocol.Wire.{Wire, get_le16, get_le32, get_le64}
use libiio.RingWire.Status.{RingStatus, status_values_valid, put_status, encode, get_status, decode}

-- The fields have the widths of the C types.
pub record RingStatusFits (s : RingStatus) : Type 0 where
  pub state : s.state < word32
  pub terminal_reason : s.terminal_reason < word32
  pub valid_fields : s.valid_fields < word32
  pub error_code : s.error_code < word32
  pub requested_capacity_iq_bytes : s.requested_capacity_iq_bytes < word64
  pub admitted_capacity_iq_bytes : s.admitted_capacity_iq_bytes < word64
  pub target_frames : s.target_frames < word64
  pub produced_frames : s.produced_frames < word64
  pub consumed_frames : s.consumed_frames < word64
  pub high_water_frames : s.high_water_frames < word64
  pub wrap_count : s.wrap_count < word64
  pub producer_position : s.producer_position < word64
  pub consumer_position : s.consumer_position < word64
  pub last_contiguous_sample_sequence : s.last_contiguous_sample_sequence < word64
  pub first_unavailable_sample_sequence : s.first_unavailable_sample_sequence < word64

fields_trip : (s : RingStatus) (p : Wire) → RingStatusFits s → get_status (put_status s p) ≡ s
unfolding get_status put_status get_le16 get_le32 get_le64
fields_trip s p fits = ground arith

constants_sent :
    (s : RingStatus) (p : Wire)
    → (get_le32 (put_status s p) 0 ≡ 0x53524653)
      × (get_le16 (put_status s p) 4 ≡ 1)
      × (get_le16 (put_status s p) 6 ≡ 128)
      × (get_le64 (put_status s p) 112 ≡ 0)
      × (get_le64 (put_status s p) 120 ≡ 0)
unfolding put_status get_le16 get_le32 get_le64
constants_sent s p = (refl, refl, refl, refl, refl)

decode-sent :
    (s : RingStatus) (p : Wire)
    → RingStatusFits s
    → status_values_valid s ≡ true
    → decode (put_status s p) 128 ≡ (ok, some s)
unfolding decode
decode-sent s p fits v =
    let c = constants_sent s p in rw (c.0, c.1, c.2, c.3, c.4, fields_trip s p fits, v)

-- A status of a ring whose fields have the widths of the C types and that the encoder accepts is decoded to itself
-- from the bytes that it wrote.
pub ring_status_decode-encode :
    (s : RingStatus) (p : Wire) {sent : Wire}
    → RingStatusFits s
    → encode 128 s p ≡ (ok, sent)
    → decode sent 128 ≡ (ok, some s)
unfolding encode
ring_status_decode-encode s p {sent} fits e =
    let v : status_values_valid s ≡ true = ground arith in
    let same : put_status s p ≡ sent = ground (arith, v) in
    subst (λ q. decode q 128 ≡ (ok, some s)) same (decode-sent s p fits v)
