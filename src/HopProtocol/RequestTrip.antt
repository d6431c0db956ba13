-- ===== src/HopProtocol/RequestTrip.antt =====
-- What the request encoder of iiod/spf-hop-protocol.c writes, its decoder reads back.
use libiio.Prelude.{
  ℕ, ◌+◌, ◌-◌, ◌*◌, ◌<◌, ◌≤◌, ◌≡◌, refl, ◌∙◌, ap, subst, List, [], ◌∷◌, some, All, arith, word32,
  word64, length, ok, true,
}
use libiio.HopProtocol.{
  Profile, Request, profile_count, request_magic, protocol_version, request_bytes, event_bytes,
  status_bytes,
}
use libiio.HopProtocol.Wire.{
  Wire, get_le16, get_le32, get_le64, all_zero, from, through, get_le16-cong, get_le32-cong,
  get_le64-cong, through-at, through-before, through-after,
}
use libiio.HopProtocol.RequestWire.{
  put_profile, put_profiles, put_request, encode, get_profile, get_profiles, get_request, decode,
  validate_request,
}

-- The fields have the widths of the C types.
pub record ProfileFits (p : Profile) : Type 0 where
  pub profile_id : p.profile_id < 256
  pub fastlock_slot : p.fastlock_slot < 256
  pub center_frequency_hz : p.center_frequency_hz < word64
  pub lo_frequency_hz : p.lo_frequency_hz < word64
  pub profile_crc32 : p.profile_crc32 < word32

pub record RequestFits (r : Request) : Type 0 where
  pub required_features : r.required_features < word32
  pub flags : r.flags < word32
  pub session_id : r.session_id < word64
  pub sample_rate_hz : r.sample_rate_hz < word64
  pub rf_bandwidth_hz : r.rf_bandwidth_hz < word64
  pub if_offset_hz : r.if_offset_hz < word64
  pub dwell_samples : r.dwell_samples < word64
  pub transition_guard_samples : r.transition_guard_samples < word64
  pub dwell_count : r.dwell_count < word64
  pub capture_span_samples : r.capture_span_samples < word64
  pub initial_profile : r.initial_profile < 256
  pub eight : length r.profiles ≡ profile_count
  pub profiles : All ProfileFits r.profiles

profile_trip :
    (p : Profile) (w : Wire)
    → w 2 ≡ 0
    → w 3 ≡ 0
    → ProfileFits p
    → get_profile (put_profile p w) ≡ some p
unfolding get_profile put_profile get_le16 get_le32 get_le64
profile_trip p w a b h = ground (arith, a, b)

put_profile-after : (p : Profile) (w : Wire) (k : ℕ) → 24 ≤ k → put_profile p w k ≡ w k
unfolding put_profile
put_profile-after p w k h = ground arith

get_profile-cong : (a b : Wire) → ((j : ℕ) → j < 24 → a j ≡ b j) → get_profile a ≡ get_profile b
unfolding get_profile
get_profile-cong a b same = rw (
  get_le16-cong a b 24 same 2 (omega arith),
  get_le64-cong a b 24 same 4 (omega arith),
  get_le64-cong a b 24 same 12 (omega arith),
  get_le32-cong a b 24 same 20 (omega arith),
  same 0 (omega arith),
  same 1 (omega arith),
)

put_profiles-before :
    (ps : List Profile) (entry : ℕ) (w : Wire) (j : ℕ) → j < entry → put_profiles entry ps w j ≡ w j
unfolding put_profiles
put_profiles-before [] entry w j h = refl
put_profiles-before (p ∷ ps) entry w j h =
    put_profiles-before ps (entry + 24) (through entry (put_profile p) w) j (omega arith)
    ∙ through-before entry j (put_profile p) w h

-- The entries behind `entry` read back, if the buffer was clear there.
profiles_trip :
    (ps : List Profile) (entry : ℕ) (w : Wire)
    → All ProfileFits ps
    → ((j : ℕ) → entry ≤ j → j < entry + 24 * length ps → w j ≡ 0)
    → get_profiles (put_profiles entry ps w) entry (length ps) ≡ some ps
unfolding put_profiles get_profiles
profiles_trip [] entry w h z = refl
profiles_trip (p ∷ ps) entry w h z =
    ground (arith, here, profiles_trip ps (entry + 24) w1 h.1 clear_after)
  where
    w1 : Wire
    w1 = through entry (put_profile p) w

    shown :
        (j : ℕ)
        → j < 24
        → put_profiles (entry + 24) ps w1 (entry + j) ≡ put_profile p (from entry w) j
    shown j q =
        put_profiles-before ps (entry + 24) w1 (entry + j) (omega arith)
        ∙ through-at entry j (put_profile p) w

    here : get_profile (from entry (put_profiles (entry + 24) ps w1)) ≡ some p
    here =
        get_profile-cong _ (put_profile p (from entry w)) shown
        ∙ profile_trip p (from entry w) (z (entry + 2) (omega arith) (omega arith))
            (z (entry + 3) (omega arith) (omega arith)) h.0

    clear_after : (j : ℕ) → entry + 24 ≤ j → j < entry + 24 + 24 * length ps → w1 j ≡ 0
    clear_after j q u =
        let e : entry + (j - entry) ≡ j = omega arith in
        through-after entry j (put_profile p) w (omega arith)
        ∙ put_profile-after p (from entry w) (j - entry) (omega arith)
        ∙ ap w e
        ∙ z j (omega arith) (omega arith)

module _ (r : Request) (w : Wire) (fits : RequestFits r) where
  -- the bytes that the encoder leaves
  sent : Wire
  sent = put_profiles 96 r.profiles (put_request r w)

  header : (j : ℕ) → j < 96 → sent j ≡ put_request r w j
  unfolding sent
  header j h = put_profiles-before r.profiles 96 (put_request r w) j h

  word64_at : (i : ℕ) → i + 8 ≤ 96 → get_le64 sent i ≡ get_le64 (put_request r w) i
  word64_at i h = get_le64-cong sent (put_request r w) 96 header i h

  word32_at : (i : ℕ) → i + 4 ≤ 96 → get_le32 sent i ≡ get_le32 (put_request r w) i
  word32_at i h = get_le32-cong sent (put_request r w) 96 header i h

  word16_at : (i : ℕ) → i + 2 ≤ 96 → get_le16 sent i ≡ get_le16 (put_request r w) i
  word16_at i h = get_le16-cong sent (put_request r w) 96 header i h

  -- each field, read from the header
  fields_trip : get_request (put_request r w) r.profiles ≡ r
  unfolding get_request put_request get_le32 get_le64
  fields_trip = ground arith

  fields_sent : get_request sent r.profiles ≡ get_request (put_request r w) r.profiles
  unfolding get_request
  fields_sent = rw (
    word32_at 8 (omega arith),
    word32_at 12 (omega arith),
    word64_at 16 (omega arith),
    word64_at 24 (omega arith),
    word64_at 32 (omega arith),
    word64_at 40 (omega arith),
    word64_at 48 (omega arith),
    word64_at 56 (omega arith),
    word64_at 64 (omega arith),
    word64_at 88 (omega arith),
    header 74 (omega arith),
  )

  clear_entries : (j : ℕ) → 96 ≤ j → j < 96 + 24 * length r.profiles → put_request r w j ≡ 0
  unfolding put_request
  clear_entries j p q = ground (arith, fits.eight)

  magic_sent : get_le32 (put_request r w) 0 ≡ request_magic
  unfolding put_request get_le32
  magic_sent = refl

  constants_sent :
      (get_le16 (put_request r w) 4 ≡ protocol_version)
      × (get_le16 (put_request r w) 6 ≡ request_bytes)
      × (get_le16 (put_request r w) 72 ≡ profile_count)
      × (put_request r w 75 ≡ 0)
      × (get_le16 (put_request r w) 76 ≡ event_bytes)
      × (get_le16 (put_request r w) 78 ≡ status_bytes)
  unfolding put_request get_le16
  constants_sent = (refl, refl, refl, refl, refl, refl)

  reserved_sent : all_zero sent 80 8 ≡ true
  unfolding all_zero put_request
  reserved_sent = rw (
    header 80 (omega arith),
    header 81 (omega arith),
    header 82 (omega arith),
    header 83 (omega arith),
    header 84 (omega arith),
    header 85 (omega arith),
    header 86 (omega arith),
    header 87 (omega arith),
  )

  profiles_sent : get_profiles sent 96 profile_count ≡ some r.profiles
  unfolding sent
  profiles_sent =
      rw (← fits.eight) (profiles_trip r.profiles 96 (put_request r w) fits.profiles clear_entries)

  decode-sent : validate_request r ≡ ok → decode sent request_bytes ≡ (ok, some r)
  unfolding decode
  decode-sent v =
      let c = constants_sent in
      rw (
        word32_at 0 (omega arith) ∙ magic_sent,
        word16_at 4 (omega arith) ∙ c.0,
        word16_at 6 (omega arith) ∙ c.1,
        word16_at 72 (omega arith) ∙ c.2,
        header 75 (omega arith) ∙ c.3,
        word16_at 76 (omega arith) ∙ c.4,
        word16_at 78 (omega arith) ∙ c.5,
        reserved_sent,
        profiles_sent,
        fields_sent ∙ fields_trip,
        v,
      )

decode-sent_unfolded :
    (r : Request) (w : Wire)
    → RequestFits r
    → validate_request r ≡ ok
    → decode (put_profiles 96 r.profiles (put_request r w)) request_bytes ≡ (ok, some r)
unfolding sent
decode-sent_unfolded r w fits v = decode-sent r w fits v

-- A request whose fields have the widths of the C types and that the encoder accepts is decoded to
-- itself from the bytes that it wrote.
pub decode-encode :
    (r : Request) (bytes : ℕ) (w : Wire) {sent : Wire}
    → RequestFits r
    → encode bytes r w ≡ (ok, sent)
    → decode sent request_bytes ≡ (ok, some r)
unfolding encode
decode-encode r bytes w {sent = wire} fits e =
    let v : validate_request r ≡ ok = ground arith in
    let same : put_profiles 96 r.profiles (put_request r w) ≡ wire = ground (arith, v) in
    subst (λ p. decode p request_bytes ≡ (ok, some r)) same (decode-sent_unfolded r w fits v)
