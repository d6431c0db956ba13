-- ===== src/CounterMetadata/Trip.antt =====
-- What iiod/spf-counter-metadata.c builds or rebases, it describes.
use libiio.Prelude.{
  ℕ, ◌-◌, ◌*◌, ◌%◌, ◌≤◌, ◌<◌, ◌≡◌, refl, ◌∙◌, sym, subst, ap, ltb, false, some, arith, ok, pos,
  word32, word64, Bool-cases, inl, inr,
}
use libiio.HopProtocol.Wire.{Wire, get_le32, get_le64, put_le32, put_le64, clear}
use libiio.CounterMetadata.{
  CounterFrame, FrameInfo, frame_invalid, put_frame, sealed, frame_build, get_frame,
  frame_malformed, info_of, flags_of, frame_describe, with_missing, frame_rebase, rebase_described,
  frame_magic, frame_version,
}
use libiio.CounterMetadata.Seal.{IsFramed, sealed_describes}

-- the fields of a frame have the widths of the C types
pub record FrameFits (f : CounterFrame) : Type 0 where
  pub stream : f.stream < word64
  pub sequence : f.sequence < word64
  pub first : f.first < word64
  pub missing : f.missing < word64
  pub samples : f.samples < word32
  pub rate : f.rate < word32

put_frame_fields : (f : CounterFrame) (p : Wire) → FrameFits f → get_frame (put_frame f p) ≡ f
unfolding get_frame put_frame get_le32 get_le64 put_le32 put_le64 clear
put_frame_fields f p fits = ground arith

constants_sent :
    (f : CounterFrame) (p : Wire)
    → (get_le32 (put_frame f p) 0 ≡ frame_magic)
      × (get_le32 (put_frame f p) 4 ≡ frame_version)
      × (get_le32 (put_frame f p) 8 ≡ 7)
      × (get_le32 (put_frame f p) 56 ≡ 3)
      × (get_le32 (put_frame f p) 64 ≡ 2)
      × (get_le32 (put_frame f p) 68 ≡ 0)
      × (get_le32 (put_frame f p) 72 ≡ 0)
unfolding put_frame get_le32 put_le32 put_le64 clear
constants_sent f p = (refl, refl, refl, refl, refl, refl, refl)

sent_flags : (f : CounterFrame) (p : Wire) → get_le32 (put_frame f p) 12 ≡ flags_of f.missing
unfolding put_frame get_le32 put_le32 put_le64 clear flags_of
sent_flags f p = ground arith

sent_bytes : (f : CounterFrame) (p : Wire) → get_le32 (put_frame f p) 52 ≡ f.samples * 4 % word32
unfolding put_frame get_le32 put_le32 put_le64 clear
sent_bytes f p = ground arith

put_frame-IsFramed : (f : CounterFrame) (p : Wire) → FrameFits f → IsFramed (put_frame f p)
put_frame-IsFramed f p fits =
    let (magic, version, features, mask, channels, reserved, reserved_too) = constants_sent f p in
    let same = put_frame_fields f p fits in
    record {
      magic = magic;
      version = version;
      features = features;
      flags = sent_flags f p ∙ ap (λ g. flags_of g.missing) (sym same);
      bytes = sent_bytes f p ∙ ap (λ g. g.samples * 4 % word32) (sym same);
      mask = mask;
      channels = channels;
      reserved = reserved;
      reserved_too = reserved_too;
    }

-- A frame whose fields have the widths of the C types and that is built is described as what it was built of.
pub describe-build :
    (f : CounterFrame) (capacity : ℕ) (p : Wire) {sent : Wire}
    → FrameFits f
    → frame_build capacity f p ≡ (pos 80, sent)
    → frame_describe sent 80 ≡ (ok, some (info_of f))
unfolding frame_build
describe-build f capacity p {sent} fits e =
    let good : frame_invalid f ≡ false = ground arith in
    let same : sealed (put_frame f p) ≡ sent = ground (arith, good) in
    let fields = put_frame_fields f p fits in
    let described =
      sealed_describes (put_frame f p) (put_frame-IsFramed f p fits) (rw fields good) in
    subst (λ q. frame_describe q 80 ≡ (ok, some (info_of f))) same (rw fields at described)

-- the frame with another number of missing samples
abbrev missing_as : ℕ → CounterFrame → CounterFrame
missing_as missing f = record f { missing = missing }

rebased_fields :
    (p : Wire) (missing : ℕ)
    → missing < word64
    → get_frame (put_le32 12 (flags_of missing) (put_le64 40 missing p))
      ≡ missing_as missing (get_frame p)
unfolding get_frame get_le32 get_le64 put_le32 put_le64
rebased_fields p missing h = ground arith

described_frame :
    (p : Wire) (info : FrameInfo)
    → frame_describe p 80 ≡ (ok, some info)
    → (frame_malformed p ≡ false)
      × (frame_invalid (get_frame p) ≡ false)
      × (info_of (get_frame p) ≡ info)
unfolding frame_describe
described_frame p info e = ground (arith, e)

well-IsFramed : (p : Wire) → frame_malformed p ≡ false → IsFramed p
unfolding frame_malformed
well-IsFramed p e = record {
  magic = ground (arith, e);
  version = ground (arith, e);
  features = ground (arith, e);
  flags = ground (arith, e);
  bytes = ground (arith, e);
  mask = ground (arith, e);
  channels = ground (arith, e);
  reserved = ground (arith, e);
  reserved_too = ground (arith, e);
}

-- the bytes of a frame with a new number of missing samples, not yet sealed
abbrev rebased : ℕ → Wire → Wire
rebased missing p = put_le32 12 (flags_of missing) (put_le64 40 missing p)

rebased_words :
    (p : Wire) (missing : ℕ)
    → (get_le32 (rebased missing p) 0 ≡ get_le32 p 0)
      × (get_le32 (rebased missing p) 4 ≡ get_le32 p 4)
      × (get_le32 (rebased missing p) 8 ≡ get_le32 p 8)
      × (get_le32 (rebased missing p) 52 ≡ get_le32 p 52)
      × (get_le32 (rebased missing p) 56 ≡ get_le32 p 56)
      × (get_le32 (rebased missing p) 64 ≡ get_le32 p 64)
      × (get_le32 (rebased missing p) 68 ≡ get_le32 p 68)
      × (get_le32 (rebased missing p) 72 ≡ get_le32 p 72)
unfolding get_le32 put_le32 put_le64
rebased_words p missing = (refl, refl, refl, refl, refl, refl, refl, refl)

rebased_flags : (p : Wire) (missing : ℕ) → get_le32 (rebased missing p) 12 ≡ flags_of missing
unfolding get_le32 put_le32 put_le64 flags_of
rebased_flags p missing = ground arith

rebased-IsFramed :
    (p : Wire) (missing : ℕ) → missing < word64 → IsFramed p → IsFramed (rebased missing p)
rebased-IsFramed p missing h c =
    let (magic, version, features, bytes, mask, channels, reserved, reserved_too) =
      rebased_words p missing in
    let same = rebased_fields p missing h in
    record {
      magic = magic ∙ c.magic;
      version = version ∙ c.version;
      features = features ∙ c.features;
      flags = rebased_flags p missing ∙ ap (λ g. flags_of g.missing) (sym same);
      bytes = bytes ∙ c.bytes ∙ ap (λ g. g.samples * 4 % word32) (sym same);
      mask = mask ∙ c.mask;
      channels = channels ∙ c.channels;
      reserved = reserved ∙ c.reserved;
      reserved_too = reserved_too ∙ c.reserved_too;
    }

still_valid :
    (f : CounterFrame) (missing : ℕ)
    → missing ≤ f.first
    → frame_invalid f ≡ false
    → (frame_invalid (missing_as missing f) ≡ false) × (f.first < word64)
unfolding frame_invalid
still_valid f missing h e = ground (arith, e)

described_size :
    (p : Wire) (bytes : ℕ) (info : FrameInfo)
    → frame_describe p bytes ≡ (ok, some info)
    → bytes ≡ 80
unfolding frame_describe
described_size p bytes info e = ground (arith, e)

rebased_describes :
    (p : Wire) (info : FrameInfo) (missing : ℕ)
    → frame_describe p 80 ≡ (ok, some info)
    → missing ≤ info.first_sample_sequence
    → frame_describe (with_missing missing p) 80
      ≡ (ok, some (record info { missing_samples_before = missing }))
unfolding with_missing info_of
rebased_describes p info missing e h =
    let (framed, good, same) = described_frame p info e in
    let first : (get_frame p).first ≡ info.first_sample_sequence =
      ap (λ i. i.first_sample_sequence) same in
    let (good₂, small) = still_valid (get_frame p) missing (omega (arith, first)) good in
    let fields = rebased_fields p missing (omega (arith, first)) in
    let described =
      sealed_describes (rebased missing p)
        (rebased-IsFramed p missing (omega (arith, first)) (well-IsFramed p framed))
        (rw fields good₂) in
    rw fields at described
    ∙ ap (λ i. (ok, some (record i { missing_samples_before = missing }))) same

-- A frame that is rebased to an earlier end of the frame before is described as itself, with the samples since that
-- end missing.
pub describe-rebase :
    (p : Wire) (bytes previous_end : ℕ) (info : FrameInfo) {sent : Wire}
    → frame_describe p bytes ≡ (ok, some info)
    → frame_rebase p bytes previous_end ≡ (ok, sent)
    → (previous_end ≤ info.first_sample_sequence)
      × (frame_describe sent bytes ≡ (
        ok,
        some (record info { missing_samples_before = info.first_sample_sequence - previous_end }),
      ))
unfolding frame_rebase rebase_described
describe-rebase p bytes previous_end info {sent} e r =
    let size = described_size p bytes info e in
    let missing = info.first_sample_sequence - previous_end in
    let told : rebase_described (ok, some info) p previous_end ≡ (ok, sent) =
      subst (λ t. rebase_described t p previous_end ≡ (ok, sent)) e r in
    elim (Bool-cases (ltb info.first_sample_sequence previous_end)) [
      | inl early ↦ absurd (cc (rw early at told))
      | inr late ↦
          (let same : with_missing missing p ≡ sent = ap (λ t. t.1) (rw late at told) in
            let described = rebased_describes p info missing (rw size at e) (omega arith) in
            (
              ground (arith, late),
              rw size (
                  subst
                    (λ q.
                      frame_describe q 80
                      ≡ (ok, some (record info { missing_samples_before = missing })))
                    same described),
            ))
    ]
