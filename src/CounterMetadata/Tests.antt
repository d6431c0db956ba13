-- ===== src/CounterMetadata/Tests.antt =====
-- A frame of counter metadata, built, described and rebased.
use libiio.Prelude.{◌+◌, ◌≤◌, ◌≡◌, refl, ap, some, arith, ok, pos}
use libiio.HopProtocol.Wire.{Wire, put_le32, get_le32}
use libiio.CounterMetadata.{
  CounterFrame, FrameInfo, crc32, crc_bytes, crc_bits, crc_bit, request_decode, rate_invalid,
  frame_invalid, frame_build, sealed, put_frame, frame_describe, frame_rebase, rebase_described,
  with_missing, info_of,
}
use libiio.CounterMetadata.Trip.{describe-build, describe-rebase}

-- the text 123456789
abbrev digits : Wire
digits i = 49 + i

crc32-digits : crc32 digits 9 ≡ 0xcbf43926
unfolding crc32 crc_bytes crc_bits crc_bit
crc32-digits = refl

abbrev blank : Wire
blank i = 0

abbrev request : Wire
request = put_le32 20 1000 (
    put_le32 16 2500000
      (put_le32 12 3 (put_le32 8 7 (put_le32 4 0x200001 (put_le32 0 0x43465053 blank)))))

request_decoded :
    request_decode request 32 1000 3
    ≡ (ok, some (record { sample_rate_hz = 2500000; samples_per_channel = 1000 }))
unfolding request_decode rate_invalid put_le32 get_le32
request_decoded = refl

abbrev frame : CounterFrame
frame = record {
  stream = 7;
  sequence = 3;
  first = 5000;
  missing = 0;
  samples = 1000;
  rate = 2500000;
}

abbrev info : FrameInfo
info = record { first_sample_sequence = 5000; frame_end = 6000; missing_samples_before = 0 }

abbrev built : Wire
built = sealed (put_frame frame blank)

frame_built : frame_build 80 frame blank ≡ (pos 80, built)
unfolding frame_build frame_invalid
frame_built = refl

describe-build_example : frame_describe built 80 ≡ (ok, some info)
unfolding info_of
describe-build_example = describe-build frame 80 blank (omega arith) frame_built

frame_rebased : frame_rebase built 80 4200 ≡ (ok, with_missing 800 built)
unfolding frame_rebase rebase_described
frame_rebased = ap (λ t. rebase_described t built 4200) describe-build_example

describe-rebase_example :
    (4200 ≤ 5000)
    × (frame_describe (with_missing 800 built) 80 ≡ (
      ok,
      some
          (record { first_sample_sequence = 5000; frame_end = 6000; missing_samples_before = 800 }),
    ))
describe-rebase_example = describe-rebase built 80 4200 info describe-build_example frame_rebased
