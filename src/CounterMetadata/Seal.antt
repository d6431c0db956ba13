-- ===== src/CounterMetadata/Seal.antt =====
-- The check sum that iiod/spf-counter-metadata.c puts under a frame, and what it covers.
use libiio.Prelude.{
  ℕ, zero, suc, ◌+◌, ◌*◌, ◌%◌, ◌≤◌, ◌<◌, ◌≡◌, refl, ◌∙◌, sym, ap, true, false, ◌==◌, some, arith,
  ok, word32,
}
use libiio.HopProtocol.Wire.{Wire, get_le32, put_le32, get-put_le32, get_le32-cong, get_le64-cong}
use libiio.CounterMetadata.{
  crc_bytes, crc32, frame_invalid, sealed, get_frame, frame_malformed, info_of, flags_of,
  frame_describe, frame_magic, frame_version,
}

-- The check sum depends on the bytes that it is taken of.
crc_bytes-cong :
    (n : ℕ) (p q : Wire) (i crc : ℕ)
    → ((j : ℕ) → j < i + n → p j ≡ q j)
    → crc_bytes n p i crc ≡ crc_bytes n q i crc
unfolding crc_bytes
crc_bytes-cong zero p q i crc same = refl
crc_bytes-cong (suc n) p q i crc same =
    rw (same i (omega arith)) (crc_bytes-cong n p q (i + 1) _ (λ j h. same j (omega arith)))

crc32-cong : (p q : Wire) (n : ℕ) → ((j : ℕ) → j < n → p j ≡ q j) → crc32 p n ≡ crc32 q n
unfolding crc32
crc32-cong p q n same = rw (crc_bytes-cong n p q 0 0xffffffff (λ j h. same j (omega arith))) refl

crc32-word : (p : Wire) (n : ℕ) → crc32 p n < word32
unfolding crc32
crc32-word p n = omega arith

put_le32-before : (i v : ℕ) (p : Wire) (j : ℕ) → j < i → put_le32 i v p j ≡ p j
unfolding put_le32
put_le32-before i v p j h = ground arith

sealed-before : (p : Wire) (j : ℕ) → j < 76 → sealed p j ≡ p j
unfolding sealed
sealed-before p j h = put_le32-before 76 (crc32 p 76) p j h

sealed_crc : (p : Wire) → get_le32 (sealed p) 76 ≡ crc32 (sealed p) 76
unfolding sealed
sealed_crc p =
    get-put_le32 76 (crc32 p 76) p (crc32-word p 76)
    ∙ sym (crc32-cong (sealed p) p 76 (sealed-before p))

get_frame-cong : (p q : Wire) → ((j : ℕ) → j < 76 → p j ≡ q j) → get_frame p ≡ get_frame q
unfolding get_frame
get_frame-cong p q same = rw (
  get_le64-cong p q 76 same 16 (omega arith),
  get_le64-cong p q 76 same 24 (omega arith),
  get_le64-cong p q 76 same 32 (omega arith),
  get_le64-cong p q 76 same 40 (omega arith),
  get_le32-cong p q 76 same 48 (omega arith),
  get_le32-cong p q 76 same 60 (omega arith),
)

-- the constants of a frame whose check sum is not looked at
pub record IsFramed (p : Wire) : Type 0 where
  pub magic : get_le32 p 0 ≡ frame_magic
  pub version : get_le32 p 4 ≡ frame_version
  pub features : get_le32 p 8 ≡ 7
  pub flags : get_le32 p 12 ≡ flags_of (get_frame p).missing
  pub bytes : get_le32 p 52 ≡ (get_frame p).samples * 4 % word32
  pub mask : get_le32 p 56 ≡ 3
  pub channels : get_le32 p 64 ≡ 2
  pub reserved : get_le32 p 68 ≡ 0
  pub reserved_too : get_le32 p 72 ≡ 0

sealed-IsFramed : (p : Wire) → IsFramed p → IsFramed (sealed p)
sealed-IsFramed p c =
    let keep = sealed-before p in
    let word = λ (i : ℕ) (h : i + 4 ≤ 76). get_le32-cong (sealed p) p 76 keep i h in
    let same = get_frame-cong (sealed p) p keep in
    record {
      magic = word 0 (omega arith) ∙ c.magic;
      version = word 4 (omega arith) ∙ c.version;
      features = word 8 (omega arith) ∙ c.features;
      flags = word 12 (omega arith) ∙ c.flags ∙ ap (λ f. flags_of f.missing) (sym same);
      bytes = word 52 (omega arith) ∙ c.bytes ∙ ap (λ f. f.samples * 4 % word32) (sym same);
      mask = word 56 (omega arith) ∙ c.mask;
      channels = word 64 (omega arith) ∙ c.channels;
      reserved = word 68 (omega arith) ∙ c.reserved;
      reserved_too = word 72 (omega arith) ∙ c.reserved_too;
    }

equal_test : (a : ℕ) → (a == a) ≡ true
equal_test a = ground arith

framed_well : (p : Wire) → IsFramed p → get_le32 p 76 ≡ crc32 p 76 → frame_malformed p ≡ false
unfolding frame_malformed
framed_well p c crc =
    rw
      (
        c.magic,
        c.version,
        c.features,
        c.flags,
        c.bytes,
        c.mask,
        c.channels,
        c.reserved,
        c.reserved_too,
        crc,
        equal_test (flags_of (get_frame p).missing),
        equal_test ((get_frame p).samples * 4 % word32),
        equal_test (crc32 p 76),
      )
      refl

-- A frame that is sealed is described as it is.
pub sealed_describes :
    (p : Wire)
    → IsFramed p
    → frame_invalid (get_frame p) ≡ false
    → frame_describe (sealed p) 80 ≡ (ok, some (info_of (get_frame p)))
unfolding frame_describe
sealed_describes p c good =
    rw
      (
        framed_well (sealed p) (sealed-IsFramed p c) (sealed_crc p),
        get_frame-cong (sealed p) p (sealed-before p),
        good,
      )
      refl
