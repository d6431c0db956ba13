-- ===== src/BufferLayout.antt =====
-- The shape of a refilled buffer and the numbers of its frames: iiod/spf-buffer-layout.c. `size_max` is the
-- platform's SIZE_MAX.
pub mod Sequence
pub mod Coverage
mod Tests
use libiio.Prelude.{
  ℕ, ◌+◌, ◌-◌, ◌*◌, ◌/◌, ◌%◌, ◌^◌, ◌≤◌, ◌<◌, ◌≡◌, ltb, leb, ◌==◌, Bool, not, ◌||◌, ◌&&◌,
  if◌then◌else◌, Option, none, some, ◌⊎◌, inl, inr, Bool-cases, Option-cases, subst, ℤ, ok, einval,
  e2big, arith, word32,
}

-- `struct spf_buffer_layout`
pub record Layout : Type 0 where
  pub enabled_scan_mask : ℕ
  pub receiver_count : ℕ
  pub scan_bytes : ℕ
  pub extra_samples : ℕ
  pub samples_per_channel : ℕ
  pub iq_bytes_per_sample : ℕ
  pub timestamp_words : ℕ
  pub iq_bytes : ℕ
  pub raw_bytes : ℕ

-- the layout of `receiver_count` receivers, whose scans have 4 bytes each
unfoldable pub layout_of : ℕ → ℕ → ℕ → Layout
layout_of samples_count mask receiver_count =
    let scan = receiver_count * 4 in
    record {
      enabled_scan_mask = mask;
      receiver_count = receiver_count;
      scan_bytes = scan;
      extra_samples = 8 / scan;
      samples_per_channel = samples_count;
      iq_bytes_per_sample = scan;
      timestamp_words = samples_count * scan / 8 % word32;
      iq_bytes = samples_count * scan;
      raw_bytes = samples_count * scan + 8;
    }

-- the switch over the mask; `none` is -EINVAL
unfoldable pub receivers_of : ℕ → ℕ → Option ℕ
receivers_of samples_count mask =
    if mask == 0x03 || mask == 0x0c
    then (if samples_count % 2 == 0 then some 1 else none)
    else if mask == 0x0f
    then some 2
    else none

module _ (size_max : ℕ) where
  -- what follows the switch; `UINT32_MAX >> 1` is 2^31 - 1
  unfoldable pub sized_layout : ℕ → ℕ → ℕ → ℕ → ℤ × Option Layout
  unfolding layout_of
  sized_layout samples_count mask scan_bytes receiver_count =
      let iq_bytes = samples_count * scan_bytes in
      if not (scan_bytes == receiver_count * 4) || ltb ((size_max - 8) / scan_bytes) samples_count
      then (einval, none)
      else if not (iq_bytes % 8 == 0) || ltb (2 ^ 31 - 1) (iq_bytes / 8)
      then (e2big, none)
      else (ok, some (layout_of samples_count mask receiver_count))

  -- `spf_buffer_layout_resolve`, with the first word of the mask and the number of its words
  unfoldable pub resolve : ℕ → ℕ → ℕ → ℕ → ℤ × Option Layout
  unfolding sized_layout receivers_of
  resolve samples_count mask words scan_bytes =
      if not (words == 1) || samples_count == 0 || ltb (2 ^ 32 - 1) samples_count
      then (einval, none)
      else elim (receivers_of samples_count mask) [
        | none ↦ (einval, none)
        | some receiver_count ↦ sized_layout samples_count mask scan_bytes receiver_count
      ]

  -- what an accepted layout promises: its sizes agree, and none of its numbers has wrapped
  pub record IsSized (l : Layout) : Type 0 where
    pub scan : l.scan_bytes ≡ l.receiver_count * 4
    pub filled : l.iq_bytes ≡ l.samples_per_channel * l.scan_bytes
    pub worded : l.timestamp_words * 8 ≡ l.iq_bytes
    pub extra : l.extra_samples * l.scan_bytes ≡ 8
    pub raw : l.raw_bytes ≡ l.iq_bytes + 8
    pub fits : l.raw_bytes ≤ size_max

  module _ (big : 8 ≤ size_max) (samples_count mask scan_bytes : ℕ) (l : Layout) where
    single-IsSized : sized_layout samples_count mask scan_bytes 1 ≡ (ok, some l) → IsSized l
    unfolding sized_layout layout_of
    single-IsSized e = ground (arith, e)

    double-IsSized : sized_layout samples_count mask scan_bytes 2 ≡ (ok, some l) → IsSized l
    unfolding sized_layout layout_of
    double-IsSized e = ground (arith, e)

    sized_layout-IsSized :
        (receiver_count : ℕ)
        → (receiver_count ≡ 1) ⊎ (receiver_count ≡ 2)
        → sized_layout samples_count mask scan_bytes receiver_count ≡ (ok, some l)
        → IsSized l
    sized_layout-IsSized k (inl one) e =
        single-IsSized
          (subst (λ k. sized_layout samples_count mask scan_bytes k ≡ (ok, some l)) one e)
    sized_layout-IsSized k (inr two) e =
        double-IsSized
          (subst (λ k. sized_layout samples_count mask scan_bytes k ≡ (ok, some l)) two e)

  receivers_few :
      (samples_count mask k : ℕ) → receivers_of samples_count mask ≡ some k → (k ≡ 1) ⊎ (k ≡ 2)
  unfolding receivers_of
  receivers_few samples_count mask k e = ground (arith, e)

  -- The sizes of a layout that is accepted agree and none has wrapped, if sizes are at least 8.
  pub resolve-IsSized :
      (samples_count mask words scan_bytes : ℕ) (l : Layout)
      → 8 ≤ size_max
      → resolve samples_count mask words scan_bytes ≡ (ok, some l)
      → IsSized l
  unfolding resolve
  resolve-IsSized samples_count mask words scan_bytes l big e =
      elim (Bool-cases (not (words == 1) || samples_count == 0 || ltb (2 ^ 32 - 1) samples_count)) [
        | inl bad ↦ absurd (cc (rw bad at e))
        | inr good ↦ elim (Option-cases (receivers_of samples_count mask)) [
          | inl n ↦ absurd (cc (rw (good, n) at e))
          | inr (k, s) ↦
              sized_layout-IsSized big samples_count mask scan_bytes l k
                (receivers_few samples_count mask k s) (rw (good, s) at e)
        ]
      ]

-- `spf_buffer_hop_receiver_rate_validate`
unfoldable pub receiver_rate_validate : ℕ → ℕ → Bool → ℤ
receiver_rate_validate receiver_count sample_rate_hz multirate_host =
    if receiver_count == 2
      || (receiver_count == 1 && sample_rate_hz == 10000000)
      || (multirate_host
          && receiver_count == 1
          && (sample_rate_hz == 15000000 || sample_rate_hz == 20000000))
    then ok
    else einval
