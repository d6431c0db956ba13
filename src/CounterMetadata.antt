-- ===== src/CounterMetadata.antt =====
-- The counter metadata that stands before a frame: iiod/spf-counter-metadata.c. Its static byte helpers are
-- those of the hop protocol.

pub mod Seal
pub mod Trip
mod Tests
use Prim.Native.Nat.{bit_xor}
use libiio.Prelude.{
  ℕ, zero, suc, ◌+◌, ◌-◌, ◌*◌, ◌/◌, ◌%◌, ltb, leb, ◌==◌, Bool, not, ◌||◌, ◌&&◌, if◌then◌else◌,
  Option, none, some, ℤ, pos, ok, einval, enospc, erange, ebadmsg, eprotonosupport, is_zero, max64,
  word32,
}
use libiio.HopProtocol.Wire.{Wire, get_le32, get_le64, put_le32, put_le64, clear}

-- `VALID_FLAGS` and `GAP_FLAGS`
abbrev pub valid_flags : ℕ
valid_flags = 0x200010

abbrev pub gap_flags : ℕ
gap_flags = 0x800800

abbrev pub frame_magic : ℕ
frame_magic = 0x31435053

-- `(SPF_COUNTER_FRAME_BYTES << 16) | 1`
abbrev pub frame_version : ℕ
frame_version = 0x500001

-- `UINT32_MAX / 4`
abbrev pub most_samples : ℕ
most_samples = 0x3fffffff

abbrev pub most_rate : ℕ
most_rate = 61440000

-- one bit of the division: `-(crc & 1)` masks the polynomial
unfoldable pub crc_bit : ℕ → ℕ
crc_bit crc = if crc % 2 == 1 then bit_xor (crc / 2) 0xedb88320 else crc / 2

unfoldable pub crc_bits : ℕ → ℕ → ℕ
crc_bits zero crc = crc
crc_bits (suc n) crc = crc_bits n (crc_bit crc)

-- the loop over the bytes from `i` on
unfoldable pub crc_bytes : ℕ → Wire → ℕ → ℕ → ℕ
crc_bytes zero p i crc = crc
crc_bytes (suc n) p i crc = crc_bytes n p (i + 1) (crc_bits 8 (bit_xor crc (p i)))

-- `~crc` of a uint32_t
unfoldable pub crc32 : Wire → ℕ → ℕ
crc32 p bytes = word32 - 1 - crc_bytes bytes p 0 (word32 - 1)

-- `struct spf_counter_request`
pub record CounterRequest : Type 0 where
  pub sample_rate_hz : ℕ
  pub samples_per_channel : ℕ

-- the last test of the request
unfoldable pub rate_invalid : ℕ → CounterRequest → Bool
rate_invalid samples r =
    r.sample_rate_hz == 0
    || ltb most_rate r.sample_rate_hz
    || samples == 0
    || ltb most_samples samples
    || samples % 2 == 1
    || not (r.samples_per_channel == samples)

-- `spf_counter_request_decode`; what a failing call leaves in `*request` is left open
unfoldable pub request_decode : Wire → ℕ → ℕ → ℕ → ℤ × Option CounterRequest
request_decode p bytes samples scan_mask =
    let r : CounterRequest = record {
      sample_rate_hz = get_le32 p 16;
      samples_per_channel = get_le32 p 20;
    } in
    if not (bytes == 32)
    then (einval, none)
    else if not (get_le32 p 0 == 0x43465053) || not (get_le32 p 4 == 0x200001)
    then (eprotonosupport, none)
    else if not (get_le32 p 8 == 7)
        || not (get_le32 p 12 == 3)
        || not (scan_mask == 3)
        || not (get_le32 p 24 == 0)
        || not (get_le32 p 28 == 0)
    then (einval, none)
    else if rate_invalid samples r
    then (einval, none)
    else (ok, some r)

-- what a frame says: the arguments of `spf_counter_frame_build`
pub record CounterFrame : Type 0 where
  pub stream : ℕ
  pub sequence : ℕ
  pub first : ℕ
  pub missing : ℕ
  pub samples : ℕ
  pub rate : ℕ

-- the semantic tests, which both directions make
unfoldable pub frame_invalid : CounterFrame → Bool
frame_invalid f =
    f.stream == 0
    || f.samples == 0
    || f.samples % 2 == 1
    || ltb most_samples f.samples
    || f.rate == 0
    || ltb most_rate f.rate
    || ltb (max64 - f.samples) f.first
    || ltb f.first f.missing

unfoldable pub flags_of : ℕ → ℕ
flags_of missing = if missing == 0 then valid_flags else valid_flags + gap_flags

-- the 76 bytes before the check sum
unfoldable pub put_frame : CounterFrame → Wire → Wire
put_frame f p = put_le32 64 2 (
    put_le32 60 f.rate (
      put_le32 56 3 (
        put_le32 52 (f.samples * 4) (
          put_le32 48 f.samples (
            put_le64 40 f.missing (
              put_le64 32 f.first (
                put_le64 24 f.sequence (
                  put_le64 16 f.stream (
                    put_le32 12 (flags_of f.missing) (
                      put_le32 8 7
                        (put_le32 4 frame_version (put_le32 0 frame_magic (clear 80 p)))))))))))))

-- `put32(p + 76, crc32(p, 76))`
unfoldable pub sealed : Wire → Wire
sealed p = put_le32 76 (crc32 p 76) p

-- `spf_counter_frame_build`; a positive result is the number of bytes
unfoldable pub frame_build : ℕ → CounterFrame → Wire → ℤ × Wire
frame_build capacity f p =
    if ltb capacity 80
    then (enospc, p)
    else if frame_invalid f
    then (einval, p)
    else (pos 80, sealed (put_frame f p))

-- `struct iiod_buffer_metadata_frame_info`
pub record FrameInfo : Type 0 where
  pub first_sample_sequence : ℕ
  pub frame_end : ℕ
  pub missing_samples_before : ℕ

unfoldable pub get_frame : Wire → CounterFrame
get_frame p = record {
  stream = get_le64 p 16;
  sequence = get_le64 p 24;
  first = get_le64 p 32;
  missing = get_le64 p 40;
  samples = get_le32 p 48;
  rate = get_le32 p 60;
}

-- the fields that are the same in every frame, or follow from the others
unfoldable pub frame_malformed : Wire → Bool
frame_malformed p =
    let f = get_frame p in
    not (get_le32 p 0 == frame_magic)
    || not (get_le32 p 4 == frame_version)
    || not (get_le32 p 8 == 7)
    || not (get_le32 p 12 == flags_of f.missing)
    || not (get_le32 p 52 == f.samples * 4 % word32)
    || not (get_le32 p 56 == 3)
    || not (get_le32 p 64 == 2)
    || not (get_le32 p 68 == 0)
    || not (get_le32 p 72 == 0)
    || not (get_le32 p 76 == crc32 p 76)

unfoldable pub info_of : CounterFrame → FrameInfo
info_of f = record {
  first_sample_sequence = f.first;
  frame_end = f.first + f.samples;
  missing_samples_before = f.missing;
}

-- `spf_counter_frame_describe`
unfoldable pub frame_describe : Wire → ℕ → ℤ × Option FrameInfo
frame_describe p bytes =
    if not (bytes == 80)
    then (ebadmsg, none)
    else if frame_malformed p || frame_invalid (get_frame p)
    then (ebadmsg, none)
    else (ok, some (info_of (get_frame p)))

-- the new number of missing samples, its flags and the check sum
unfoldable pub with_missing : ℕ → Wire → Wire
with_missing missing p = sealed (put_le32 12 (flags_of missing) (put_le64 40 missing p))

-- the rest of the call, once the frame is described
unfoldable pub rebase_described : ℤ × Option FrameInfo → Wire → ℕ → ℤ × Wire
rebase_described (ret, none) p previous_end = (ret, p)
rebase_described (ret, some info) p previous_end =
    if ltb info.first_sample_sequence previous_end
    then (erange, p)
    else (ok, with_missing (info.first_sample_sequence - previous_end) p)

-- `spf_counter_frame_rebase`
unfoldable pub frame_rebase : Wire → ℕ → ℕ → ℤ × Wire
frame_rebase p bytes previous_end = rebase_described (frame_describe p bytes) p previous_end
