-- ===== src/HopProtocol/RequestWire.antt =====
-- The plan request of iiod/spf-hop-protocol.c: validation, encoder and decoder.
use Prim.Native.Nat.{bit_and, bit_or}
use libiio.Prelude.{
  ℕ, zero, suc, ◌+◌, ◌*◌, ◌/◌, ◌^◌, ltb, leb, ◌==◌, Bool, not, ◌||◌, if◌then◌else◌, List, [], ◌∷◌,
  Option, none, some, ℤ, ok, einval, emsgsize, eprotonosupport, ebadmsg, enospc, max64, is_zero,
}
use libiio.HopProtocol.{
  Profile, Request, profile_count, request_magic, protocol_version, request_bytes, event_bytes,
  status_bytes, required_features_v1, request_flags_v1,
}
use libiio.HopProtocol.Wire.{
  Wire, put_byte, get_le16, get_le32, get_le64, put_le16, put_le32, put_le64, clear, all_zero, from,
  through, center_matches_lo,
}

-- the first test of `validate_request`; the product of dwells is known to fit
unfoldable pub geometry_valid : Request → Bool
geometry_valid r = not (
    not (r.required_features == required_features_v1)
    || not (r.flags == request_flags_v1)
    || r.session_id == 0
    || r.sample_rate_hz == 0
    || r.rf_bandwidth_hz == 0
    || ltb r.sample_rate_hz r.rf_bandwidth_hz
    || r.dwell_samples == 0
    || r.dwell_count == 0
    || ltb r.capture_span_samples r.dwell_samples
    || ltb (max64 / r.dwell_samples) r.dwell_count
    || ltb (r.dwell_count * r.dwell_samples) r.capture_span_samples
    || leb r.dwell_samples r.transition_guard_samples
    || not (r.initial_profile == 0))

unfoldable pub profile_valid : Request → ℕ → ℕ → Profile → Bool
unfolding center_matches_lo
profile_valid r slots i p = not (
    not (p.profile_id == i)
    || leb profile_count p.fastlock_slot
    || not (bit_and slots (2 ^ p.fastlock_slot) == 0)
    || p.center_frequency_hz == 0
    || p.lo_frequency_hz == 0
    || p.profile_crc32 == 0
    || not (center_matches_lo p.center_frequency_hz p.lo_frequency_hz r.if_offset_hz))

-- The loop over the profiles, with `slots` in front; `none` is -EINVAL.
unfoldable pub profiles_valid : Request → ℕ → ℕ → List Profile → Option ℕ
unfolding profile_valid
profiles_valid r slots i [] = some slots
profiles_valid r slots i (p ∷ ps) =
    let rest = profiles_valid r (bit_or slots (2 ^ p.fastlock_slot)) (i + 1) ps in
    if profile_valid r slots i p then rest else none

unfoldable pub validate_request : Request → ℤ
unfolding geometry_valid profiles_valid
validate_request r =
    if not (geometry_valid r) then einval else elim (profiles_valid r 0 0 r.profiles) [
      | none ↦ einval
      | some slots ↦ if slots == 0xff then ok else einval
    ]

unfoldable pub put_profile : Profile → Wire → Wire
unfolding put_le64 put_le32
put_profile p w = put_le32 20 p.profile_crc32 (
    put_le64 12 p.lo_frequency_hz
      (put_le64 4 p.center_frequency_hz (put_byte 1 p.fastlock_slot (put_byte 0 p.profile_id w))))

unfoldable pub put_profiles : ℕ → List Profile → Wire → Wire
put_profiles entry [] w = w
put_profiles entry (p ∷ ps) w = put_profiles (entry + 24) ps (through entry (put_profile p) w)

-- the part of the encoder before its loop
unfoldable pub put_request : Request → Wire → Wire
unfolding put_le64 put_le32 put_le16 clear
put_request r w = put_le16 78 status_bytes (
    put_le16 76 event_bytes (
      put_byte 74 r.initial_profile (
        put_le16 72 profile_count (
          put_le64 88 r.capture_span_samples (
            put_le64 64 r.dwell_count (
              put_le64 56 r.transition_guard_samples (
                put_le64 48 r.dwell_samples (
                  put_le64 40 r.if_offset_hz (
                    put_le64 32 r.rf_bandwidth_hz (
                      put_le64 24 r.sample_rate_hz (
                        put_le64 16 r.session_id (
                          put_le32 12 r.flags (
                            put_le32 8 r.required_features (
                              put_le16 6 request_bytes (
                                put_le16 4 protocol_version
                                  (put_le32 0 request_magic (clear request_bytes w)))))))))))))))))

unfoldable pub encode : ℕ → Request → Wire → ℤ × Wire
encode wire_bytes r w =
    let ret = validate_request r in
    if ltb wire_bytes request_bytes
    then (enospc, w)
    else if not (is_zero ret)
    then (ret, w)
    else (ok, put_profiles 96 r.profiles (put_request r w))

-- a profile's entry; `none` is -EBADMSG
unfoldable pub get_profile : Wire → Option Profile
get_profile entry =
    if not (get_le16 entry 2 == 0)
    then none
    else some (record {
      profile_id = entry 0;
      fastlock_slot = entry 1;
      center_frequency_hz = get_le64 entry 4;
      lo_frequency_hz = get_le64 entry 12;
      profile_crc32 = get_le32 entry 20;
    })

unfoldable pub get_profiles : Wire → ℕ → ℕ → Option (List Profile)
get_profiles w entry zero = some []
get_profiles w entry (suc n) =
    let rest = get_profiles w (entry + 24) n in
    elim (get_profile (from entry w)) [
      | none ↦ none
      | some p ↦ elim rest [ none ↦ none | some ps ↦ some (p ∷ ps) ]
    ]

-- the request whose header stands at `p`
unfoldable pub get_request : Wire → List Profile → Request
get_request p profiles = record {
  required_features = get_le32 p 8;
  flags = get_le32 p 12;
  session_id = get_le64 p 16;
  sample_rate_hz = get_le64 p 24;
  rf_bandwidth_hz = get_le64 p 32;
  if_offset_hz = get_le64 p 40;
  dwell_samples = get_le64 p 48;
  transition_guard_samples = get_le64 p 56;
  dwell_count = get_le64 p 64;
  capture_span_samples = get_le64 p 88;
  initial_profile = p 74;
  profiles = profiles;
}

-- The option is what the decoder leaves in `*request` when it returns 0.
unfoldable pub decode : Wire → ℕ → ℤ × Option Request
decode p wire_bytes =
    if not (wire_bytes == request_bytes)
    then (emsgsize, none)
    else if not (get_le32 p 0 == request_magic)
        || not (get_le16 p 4 == protocol_version)
        || not (get_le16 p 6 == request_bytes)
    then (eprotonosupport, none)
    else if not (get_le16 p 72 == profile_count)
        || not (p 75 == 0)
        || not (get_le16 p 76 == event_bytes)
        || not (get_le16 p 78 == status_bytes)
        || not (all_zero p 80 8)
    then (ebadmsg, none)
    else elim (get_profiles p 96 profile_count) [
      | none ↦ (ebadmsg, none)
      | some ps ↦
          (let r = get_request p ps in
            let ret = validate_request r in if is_zero ret then (ok, some r) else (ret, none))
    ]
