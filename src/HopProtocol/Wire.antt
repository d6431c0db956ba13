-- ===== src/HopProtocol/Wire.antt =====
-- The byte helpers at the top of iiod/spf-hop-protocol.c. A buffer is its bytes by offset; `p + n`
-- is the buffer seen from n on.
use libiio.Prelude.{
  ℕ, zero, suc, ◌+◌, ◌-◌, ◌*◌, ◌/◌, ◌%◌, ◌<◌, ◌≤◌, ◌≡◌, Bool, true, false, ltb, ◌==◌, if◌then◌else◌,
  arith, word32, word64, max64, leb, ◌&&◌, ◌⊎◌, ◌↔◌,
}

abbrev pub Wire : Type 0
Wire = ℕ → ℕ

-- `p[i] = v` for a uint8_t
abbrev pub put_byte : ℕ → ℕ → Wire → Wire
put_byte i v p = λ j. if j == i then v % 256 else p j

-- `|` of parts that share no bit is their sum.
unfoldable pub get_le16 : Wire → ℕ → ℕ
get_le16 p i = p i + p (i + 1) * 256

unfoldable pub get_le32 : Wire → ℕ → ℕ
get_le32 p i = p i + p (i + 1) * 256 + p (i + 2) * 0x10000 + p (i + 3) * 0x1000000

unfoldable pub get_le64 : Wire → ℕ → ℕ
unfolding get_le32
get_le64 p i = get_le32 p i + get_le32 p (i + 4) * word32

unfoldable pub put_le16 : ℕ → ℕ → Wire → Wire
put_le16 i v p = put_byte (i + 1) (v / 256) (put_byte i v p)

unfoldable pub put_le32 : ℕ → ℕ → Wire → Wire
put_le32 i v p =
    put_byte (i + 3) (v / 0x1000000)
      (put_byte (i + 2) (v / 0x10000) (put_byte (i + 1) (v / 256) (put_byte i v p)))

unfoldable pub put_le64 : ℕ → ℕ → Wire → Wire
unfolding put_le32
put_le64 i v p = put_le32 (i + 4) (v / word32) (put_le32 i (v % word32) p)

-- `memset(p, 0, bytes)`
unfoldable pub clear : ℕ → Wire → Wire
clear bytes p = λ j. if ltb j bytes then 0 else p j

unfoldable pub all_zero : Wire → ℕ → ℕ → Bool
all_zero p i zero = true
all_zero p i (suc n) = if p i == 0 then all_zero p (i + 1) n else false

-- `p + base`
abbrev pub from : ℕ → Wire → Wire
from base p = λ j. p (base + j)

-- what a writer does to the buffer through the pointer `p + base`
unfoldable pub through : ℕ → (Wire → Wire) → Wire → Wire
through base f p = λ j. if ltb j base then p j else f (from base p) (j - base)

-- `center == lo + offset` with a signed offset, behind tests against overflow
unfoldable pub center_matches_lo : ℕ → ℕ → ℕ → Bool
center_matches_lo center lo offset =
    if ltb offset 0x8000000000000000
    then leb lo (max64 - offset) && center == lo + offset
    else (let magnitude = word64 - offset in leb magnitude lo && center == lo - magnitude)

-- On 64-bit words, the test of a center frequency holds exactly if the signed offset leads from the LO to the
-- center without leaving the unsigned 64-bit range.
pub center_matches_lo_iff :
    (center lo offset : ℕ)
    → center < word64
    → lo < word64
    → offset < word64
    → (center_matches_lo center lo offset ≡ true) ↔ (
        (offset < 0x8000000000000000) × (center ≡ lo + offset)
        ⊎ (0x8000000000000000 ≤ offset) × (center + word64 ≡ lo + offset))
unfolding center_matches_lo
center_matches_lo_iff center lo offset c l o = ground arith

-- Writing a word and reading it back.
pub get-put_le16 : (i v : ℕ) (p : Wire) → v < 0x10000 → get_le16 (put_le16 i v p) i ≡ v
unfolding get_le16 put_le16
get-put_le16 i v p h = ground arith

pub get-put_le32 : (i v : ℕ) (p : Wire) → v < word32 → get_le32 (put_le32 i v p) i ≡ v
unfolding get_le32 put_le32
get-put_le32 i v p h = ground arith

-- What a word is read from.
module _ (a b : Wire) (n : ℕ) (same : (j : ℕ) → j < n → a j ≡ b j) where
  pub get_le16-cong : (i : ℕ) → i + 2 ≤ n → get_le16 a i ≡ get_le16 b i
  unfolding get_le16
  get_le16-cong i h = omega (arith, same i (omega arith), same (i + 1) (omega arith))

  pub get_le32-cong : (i : ℕ) → i + 4 ≤ n → get_le32 a i ≡ get_le32 b i
  unfolding get_le32
  get_le32-cong i h = omega (
    arith,
    same i (omega arith),
    same (i + 1) (omega arith),
    same (i + 2) (omega arith),
    same (i + 3) (omega arith),
  )

  pub get_le64-cong : (i : ℕ) → i + 8 ≤ n → get_le64 a i ≡ get_le64 b i
  unfolding get_le64
  get_le64-cong i h =
      omega (arith, get_le32-cong i (omega arith), get_le32-cong (i + 4) (omega arith))

-- A writer through `p + base` shows itself there and leaves what stands before.
pub through-at :
    (base k : ℕ) (f : Wire → Wire) (p : Wire) → through base f p (base + k) ≡ f (from base p) k
unfolding through
through-at base k f p = let e : base + k - base ≡ k = omega arith in rw e (ground arith)

pub through-before : (base j : ℕ) (f : Wire → Wire) (p : Wire) → j < base → through base f p j ≡ p j
unfolding through
through-before base j f p h = ground arith

pub through-after :
    (base j : ℕ) (f : Wire → Wire) (p : Wire)
    → base ≤ j
    → through base f p j ≡ f (from base p) (j - base)
unfolding through
through-after base j f p h = ground arith
