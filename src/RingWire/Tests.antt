-- ===== src/RingWire/Tests.antt =====
-- The requests and the status of a DDR ring, on bytes and on a ring that has run.
use libiio.Prelude.{◌≡◌, refl, List, [], ◌∷◌, some, arith, ok, eopnotsupp}
use libiio.HopProtocol.Wire.{Wire, get_le16, get_le32, get_le64, put_le16, put_le32, put_le64}
use libiio.DdrRing.{init, fresh}
use libiio.DdrRing.Step.{Op, start, producer_reserve, producer_commit, cancel, run}
use libiio.RingWire.{decode_ring_request, decode_burst_request, validate_frame_period}
use libiio.RingWire.Status.{RingStatus, status_values_valid, exclusive_boundary, encode, decode}
use libiio.RingWire.StatusTrip.{ring_status_decode-encode}
use libiio.RingWire.Snapshot.{snapshot, snapshot-encode}

abbrev blank : Wire
blank i = 0

-- a request of 3 frames in 64 bytes
abbrev three_frames : Wire
three_frames = put_le64 24 3 (
    put_le64 16 64
      (put_le32 12 1 (put_le32 8 1 (put_le16 6 48 (put_le16 4 1 (put_le32 0 0x52524653 blank))))))

three_frames_decoded : decode_ring_request three_frames 48 ≡ (
  ok,
  some (record { required_features = 1; flags = 1; capacity_iq_bytes = 64; capture_frames = 3 }),
)
unfolding decode_ring_request get_le16 get_le32 get_le64 put_le16 put_le32 put_le64
three_frames_decoded = refl

abbrev a_burst : Wire
a_burst =
    put_le64 16 4096 (put_le32 8 1 (put_le16 6 32 (put_le16 4 1 (put_le32 0 0x42524653 blank))))

a_burst_decoded :
    decode_burst_request a_burst 32
    ≡ (ok, some (record { required_features = 1; requested_iq_bytes = 4096 }))
unfolding decode_burst_request get_le16 get_le32 get_le64 put_le16 put_le32 put_le64
a_burst_decoded = refl

-- frames of 12 ms at 1 Msps, and of less
long_enough : validate_frame_period 12000 1000000 ≡ ok
unfolding validate_frame_period
long_enough = refl

too_short : validate_frame_period 11999 1000000 ≡ eopnotsupp
unfolding validate_frame_period
too_short = refl

boundary : exclusive_boundary 100 32 ≡ (ok, some 132)
unfolding exclusive_boundary
boundary = refl

abbrev status : RingStatus
status = record {
  state = 2;
  terminal_reason = 0;
  valid_fields = 1;
  error_code = 0;
  requested_capacity_iq_bytes = 64;
  admitted_capacity_iq_bytes = 64;
  target_frames = 3;
  produced_frames = 2;
  consumed_frames = 1;
  high_water_frames = 1;
  wrap_count = 0;
  producer_position = 2;
  consumer_position = 1;
  last_contiguous_sample_sequence = 99;
  first_unavailable_sample_sequence = 0;
}

abbrev sent : Wire
sent = (encode 128 status blank).1

status_sent : encode 128 status blank ≡ (ok, sent)
unfolding encode status_values_valid
status_sent = refl

ring_status_decode-encode_example : decode sent 128 ≡ (ok, some status)
ring_status_decode-encode_example = ring_status_decode-encode status blank (omega arith) status_sent

abbrev calls : List Op
calls = start ∷ producer_reserve ∷ producer_commit ∷ cancel 2 ∷ []

ring_made : init 4 0 ≡ some (fresh 4 0)
unfolding init
ring_made = refl

snapshot-encode_example : (encode 128 (snapshot (run (fresh 4 0) calls) 64 64) blank).0 ≡ ok
snapshot-encode_example =
    snapshot-encode 4 0 calls 64 64 blank (omega arith) (omega arith) ring_made
