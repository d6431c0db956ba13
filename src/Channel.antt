-- ===== src/Channel.antt =====
-- The conversion of samples in channel.c. A sample is its bytes in the order of memory. `little` says whether the
-- host is little-endian, which `is_little_endian()` tells the source.

pub mod Value
pub mod Mask
pub mod Sign
pub mod Convert
pub mod Sample
mod Tests
use libiio.Prelude.{
  ℕ, zero, suc, ◌+◌, ◌-◌, ◌*◌, ◌/◌, ◌%◌, ◌^◌, leb, ◌==◌, Bool, true, false, not, ◌&&◌, ◌||◌,
  if◌then◌else◌, List, [], ◌∷◌, ◌++◌, length, take, drop, replicate, get_or, set,
}

-- `struct iio_data_format`, less its scale
pub record DataFormat : Type 0 where
  pub format_length : ℕ
  pub bits : ℕ
  pub shift : ℕ
  pub is_signed : Bool
  pub is_fully_defined : Bool
  pub is_be : Bool
  pub repeat : ℕ

-- `dst[i] = src[len - i - 1]`
unfoldable pub byte_swap : List ℕ → List ℕ
byte_swap [] = []
byte_swap (x ∷ xs) = byte_swap xs ++ x ∷ []

-- `x >> s` with the bits that come down from `y`; `|` of parts that share no bit is their sum
abbrev pub down : ℕ → ℕ → ℕ → ℕ
down s x y = x / 2 ^ s + y * 2 ^ (8 - s) % 256

-- `x << s` in a byte with the bits that come up from `y`
abbrev pub up : ℕ → ℕ → ℕ → ℕ
up s x y = x * 2 ^ s % 256 + y / 2 ^ (8 - s)

-- The loop that takes bits from the byte behind; there is none behind the last.
unfoldable pub ascending : (ℕ → ℕ → ℕ) → List ℕ → List ℕ
ascending merge [] = []
ascending merge (x ∷ []) = merge x 0 ∷ []
ascending merge (x ∷ y ∷ ys) = merge x y ∷ ascending merge (y ∷ ys)

-- The loop from the end that takes bits from the byte before, `previous` in front of the first.
unfoldable pub descending : (ℕ → ℕ → ℕ) → ℕ → List ℕ → List ℕ
descending merge previous [] = []
descending merge previous (x ∷ xs) = merge x previous ∷ descending merge x xs

-- what `memset` leaves
abbrev pub zeros_of : ℕ → List ℕ
zeros_of n = replicate n 0

-- the two `memmove`s, which leave zeros behind
unfoldable pub move_to_front : ℕ → List ℕ → List ℕ
move_to_front n xs = drop n xs ++ replicate n 0

unfoldable pub move_to_back : ℕ → List ℕ → List ℕ
move_to_back n xs = replicate n 0 ++ take (length xs - n) xs

-- `shift_bits`; `left` shifts up
unfoldable pub shift_bits : Bool → ℕ → Bool → List ℕ → List ℕ
shift_bits little shift left dst =
    let bytes = shift / 8 in
    let s = shift % 8 in
    let merge = if left then up s else down s in
    if (if little then not left else left)
    then (let moved = if bytes == 0 then dst else move_to_front bytes dst in
        if s == 0 then moved else ascending merge moved)
    else (let moved = if bytes == 0 then dst else move_to_back bytes dst in
        if s == 0 then moved else descending merge 0 moved)

-- the byte with the sign bit `m`: `x | ~(m - 1)` or `x & (m - 1)`
unfoldable pub extended_byte : ℕ → ℕ → ℕ
extended_byte m x = if x / m % 2 == 1 then x % m + (256 - m) else x % m

unfoldable pub fill_of : ℕ → ℕ → ℕ
fill_of m x = if x / m % 2 == 1 then 0xff else 0x00

-- `sign_extend`; on a big-endian host a clear sign leaves the byte as it is
unfoldable pub sign_extend : Bool → ℕ → List ℕ → List ℕ
sign_extend little bits dst =
    let upper_bytes = (length dst * 8 - bits) / 8 in
    let m = 2 ^ ((bits - 1) % 8) in
    let at = if little then length dst - 1 - upper_bytes else upper_bytes in
    let x = get_or dst at 0 in
    if little
    then take at dst ++ extended_byte m x ∷ replicate upper_bytes (fill_of m x)
    else replicate upper_bytes (fill_of m x)
      ++ (if x / m % 2 == 1 then extended_byte m x else x) ∷ drop (at + 1) dst

-- the byte that holds the first bit above; `& (2^s - 1)` is a remainder
unfoldable pub cut : ℕ → ℕ → List ℕ → List ℕ
cut s i dst = if s == 0 then dst else set dst i (get_or dst i 0 % 2 ^ s)

-- `mask_upper_bits`, which does not look at the byte order of the host
unfoldable pub mask_upper_bits : ℕ → List ℕ → List ℕ
mask_upper_bits bits dst =
    take ((bits + 7) / 8) (cut (bits % 8) (bits / 8) dst)
    ++ replicate (length dst - (bits + 7) / 8) 0

-- `is_little_endian() ^ !is_be`
abbrev pub swaps : Bool → DataFormat → Bool
swaps little f = if little then f.is_be else not f.is_be

-- the body of the loop of `iio_channel_convert`
unfoldable pub convert_sample : Bool → DataFormat → List ℕ → List ℕ
convert_sample little f src =
    let swapped = if length src == 1 || not (swaps little f) then src else byte_swap src in
    let shifted = if f.shift == 0 then swapped else shift_bits little f.shift false swapped in
    if f.is_fully_defined
    then shifted
    else if f.is_signed
    then sign_extend little f.bits shifted
    else mask_upper_bits f.bits shifted

-- the body of the loop of `iio_channel_convert_inverse`
unfoldable pub convert_inverse_sample : Bool → DataFormat → List ℕ → List ℕ
convert_inverse_sample little f src =
    let masked = mask_upper_bits f.bits src in
    let shifted = if f.shift == 0 then masked else shift_bits little f.shift true masked in
    if length src == 1 || not (swaps little f) then shifted else byte_swap shifted

-- the rounds of the loops: `len * repeat` bytes, a product of unsigned ints, in steps of `len`
unfoldable pub rounds : DataFormat → ℕ
rounds f =
    let len = f.format_length / 8 in
    let end = len * f.repeat % 2 ^ 32 in if len == 0 then 0 else (end + len - 1) / len

-- the loops over the samples of `len` bytes
unfoldable pub each_sample : (List ℕ → List ℕ) → ℕ → ℕ → List ℕ → List ℕ
each_sample convert len zero src = []
each_sample convert len (suc n) src =
    convert (take len src) ++ each_sample convert len n (drop len src)

-- `iio_channel_convert`
unfoldable pub convert : Bool → DataFormat → List ℕ → List ℕ
convert little f src = each_sample (convert_sample little f) (f.format_length / 8) (rounds f) src

-- `iio_channel_convert_inverse`, which gives up on samples of more than 1024 bytes: `dst` stays
unfoldable pub convert_inverse : Bool → DataFormat → List ℕ → List ℕ → List ℕ
convert_inverse little f src dst =
    let len = f.format_length / 8 in
    if leb len 1024 then each_sample (convert_inverse_sample little f) len (rounds f) src else dst
