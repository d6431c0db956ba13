-- ===== src/HopProtocol/EventTrip.antt =====
-- What the sidecar encoder of iiod/spf-hop-protocol.c writes, its decoder reads back, for any number
-- of events.
use libiio.Prelude.{
  ℕ, ◌+◌, ◌-◌, ◌*◌, ◌<◌, ◌≤◌, ◌≡◌, ◌⊎◌, inl, inr, einval, Bool, true, false, if◌then◌else◌, refl,
  ◌∙◌, ap, subst, List, [], ◌∷◌, some, All, arith, word32, word64, length, ok, ℤ, pos,
}
use libiio.HopProtocol.{
  Event, Sidecar, sidecar_magic, protocol_version, sidecar_header_bytes, event_bytes,
  event_capacity, required_features_v1,
}
use libiio.HopProtocol.Wire.{
  Wire, get_le16, get_le32, get_le64, from, through, get_le16-cong, get_le32-cong, get_le64-cong,
  through-at, through-before, through-after,
}
use libiio.HopProtocol.EventWire.{
  validate_event, validate_events, validate_state, get_event, put_counters, put_profile_change,
  decode_event, encode_event, decode_events, encode_events, record_bytes, put_sidecar, get_sidecar,
  encode_sidecar, decode_sidecar,
}

-- The fields have the widths of the C types.
pub record EventFits (e : Event) : Type 0 where
  pub event_sequence : e.device.event_sequence < word64
  pub dwell_index : e.device.dwell_index < word64
  pub transition_before : e.device.transition_before < word64
  pub transition_after : e.device.transition_after < word64
  pub actual_lo_frequency_hz : e.device.actual_lo_frequency_hz < word64
  pub actual_if_offset_hz : e.device.actual_if_offset_hz < word64
  pub device_event_id : e.device.device_event_id < word64
  pub from_profile : e.device.from_profile < 256
  pub to_profile : e.device.to_profile < 256
  pub kind : e.device.kind < 256
  pub flags : e.device.flags < 256
  pub fastlock_slot : e.device.fastlock_slot < 0x10000
  pub invalid_start : e.invalid_start < word64
  pub invalid_end : e.invalid_end < word64

pub record SidecarFits (s : Sidecar) : Type 0 where
  pub flags : s.flags < word32
  pub session_id : s.session_id < word64
  pub buffer_sequence : s.buffer_sequence < word64
  pub block_first_sample : s.block_first_sample < word64
  pub block_end_sample : s.block_end_sample < word64
  pub state : s.state < 0x10000
  pub terminal_reason : s.terminal_reason < 0x10000
  pub error_code : s.error_code < word32
  pub events : All EventFits s.events

event_trip : (e : Event) (p : Wire) → EventFits e → get_event (encode_event e p) ≡ e
unfolding get_event encode_event put_counters put_profile_change get_le16 get_le64
event_trip e p fits = ground arith

event_reserved : (e : Event) (p : Wire) → p 54 ≡ 0 → p 55 ≡ 0 → get_le16 (encode_event e p) 54 ≡ 0
unfolding encode_event put_counters put_profile_change get_le16
event_reserved e p a b = ground (arith, a, b)

put_counters-after : (e : Event) (p : Wire) (k : ℕ) → 80 ≤ k → put_counters e p k ≡ p k
unfolding put_counters
put_counters-after e p k h = ground arith

put_profile_change-after : (e : Event) (p : Wire) (k : ℕ) → 80 ≤ k → put_profile_change e p k ≡ p k
unfolding put_profile_change
put_profile_change-after e p k h = ground arith

encode_event-after : (e : Event) (p : Wire) (k : ℕ) → 80 ≤ k → encode_event e p k ≡ p k
unfolding encode_event
encode_event-after e p k h =
    put_profile_change-after e (put_counters e p) k h ∙ put_counters-after e p k h

get_event-cong : (a b : Wire) → ((j : ℕ) → j < 80 → a j ≡ b j) → get_event a ≡ get_event b
unfolding get_event
get_event-cong a b same = rw (
  w64 0 (omega arith),
  w64 8 (omega arith),
  w64 16 (omega arith),
  w64 24 (omega arith),
  w64 32 (omega arith),
  w64 40 (omega arith),
  w64 56 (omega arith),
  w64 64 (omega arith),
  w64 72 (omega arith),
  get_le16-cong a b 80 same 52 (omega arith),
  same 48 (omega arith),
  same 49 (omega arith),
  same 50 (omega arith),
  same 51 (omega arith),
)
  where
    w64 : (i : ℕ) → i + 8 ≤ 80 → get_le64 a i ≡ get_le64 b i
    w64 i h = get_le64-cong a b 80 same i h

encode_events-before :
    (es : List Event) (at : ℕ) (p : Wire) (j : ℕ) → j < at → encode_events at es p j ≡ p j
unfolding encode_events
encode_events-before [] at p j h = refl
encode_events-before (e ∷ es) at p j h =
    encode_events-before es (at + event_bytes) (through at (encode_event e) p) j (omega arith)
    ∙ through-before at j (encode_event e) p h

-- Valid events behind `at` read back, if the buffer was clear there.
events_trip :
    (es : List Event) (at : ℕ) (p : Wire)
    → All EventFits es
    → validate_events es ≡ ok
    → ((j : ℕ) → at ≤ j → j < at + 80 * length es → p j ≡ 0)
    → decode_events (encode_events at es p) at (length es) ≡ (ok, es)
unfolding encode_events decode_events validate_events
events_trip [] at p h v z = refl
events_trip (e ∷ es) at p h v z =
    ground
      (arith, here, validates, events_trip es (at + event_bytes) p1 h.1 (ground arith) clear_after)
  where
    p1 : Wire
    p1 = through at (encode_event e) p

    q : Wire
    q = from at (encode_events (at + event_bytes) es p1)

    shown : (j : ℕ) → j < 80 → q j ≡ encode_event e (from at p) j
    shown j k =
        encode_events-before es (at + event_bytes) p1 (at + j) (omega arith)
        ∙ through-at at j (encode_event e) p

    validates : validate_event e ≡ ok
    validates = ground arith

    here : decode_event q ≡ (validate_event e, e)
    here =
        let g : get_event q ≡ e =
          get_event-cong q (encode_event e (from at p)) shown ∙ event_trip e (from at p) h.0 in
        let r : get_le16 q 54 ≡ 0 =
          get_le16-cong q (encode_event e (from at p)) 80 shown 54 (omega arith)
          ∙ event_reserved e (from at p) (z (at + 54) (omega arith) (omega arith))
              (z (at + 55) (omega arith) (omega arith)) in
        unfold decode_event in rw (r, g)

    clear_after : (j : ℕ) → at + 80 ≤ j → j < at + 80 + 80 * length es → p1 j ≡ 0
    clear_after j a b =
        let back : at + (j - at) ≡ j = omega arith in
        through-after at j (encode_event e) p (omega arith)
        ∙ encode_event-after e (from at p) (j - at) (omega arith)
        ∙ ap p back
        ∙ z j (omega arith) (omega arith)

module _ (s : Sidecar) (p : Wire) (fits : SidecarFits s)
    (few : length s.events ≤ event_capacity) where
  sent : Wire
  sent = encode_events 64 s.events (put_sidecar s p)

  header : (j : ℕ) → j < 64 → sent j ≡ put_sidecar s p j
  unfolding sent
  header j h = encode_events-before s.events 64 (put_sidecar s p) j h

  word64_at : (i : ℕ) → i + 8 ≤ 64 → get_le64 sent i ≡ get_le64 (put_sidecar s p) i
  word64_at i h = get_le64-cong sent (put_sidecar s p) 64 header i h

  word32_at : (i : ℕ) → i + 4 ≤ 64 → get_le32 sent i ≡ get_le32 (put_sidecar s p) i
  word32_at i h = get_le32-cong sent (put_sidecar s p) 64 header i h

  word16_at : (i : ℕ) → i + 2 ≤ 64 → get_le16 sent i ≡ get_le16 (put_sidecar s p) i
  word16_at i h = get_le16-cong sent (put_sidecar s p) 64 header i h

  fields_trip : get_sidecar (put_sidecar s p) s.events ≡ s
  unfolding get_sidecar put_sidecar get_le16 get_le32 get_le64
  fields_trip = ground arith

  fields_sent : (es : List Event) → get_sidecar sent es ≡ get_sidecar (put_sidecar s p) es
  unfolding get_sidecar
  fields_sent es = rw (
    word32_at 16 (omega arith),
    word64_at 24 (omega arith),
    word64_at 32 (omega arith),
    word64_at 40 (omega arith),
    word64_at 48 (omega arith),
    word16_at 56 (omega arith),
    word16_at 58 (omega arith),
    word32_at 60 (omega arith),
  )

  header_trip : get_sidecar sent [] ≡ record s { events = [] }
  unfolding get_sidecar
  header_trip = let e = fields_sent s.events ∙ fields_trip in ground (arith, e)

  constants_sent :
      (get_le32 (put_sidecar s p) 0 ≡ sidecar_magic)
      × (get_le16 (put_sidecar s p) 4 ≡ protocol_version)
      × (get_le16 (put_sidecar s p) 6 ≡ sidecar_header_bytes)
      × (get_le32 (put_sidecar s p) 8 ≡ record_bytes s)
      × (get_le32 (put_sidecar s p) 12 ≡ required_features_v1)
      × (get_le16 (put_sidecar s p) 20 ≡ length s.events)
      × (get_le16 (put_sidecar s p) 22 ≡ event_capacity)
  unfolding put_sidecar get_le16 get_le32 record_bytes
  constants_sent = (refl, refl, refl, omega arith, refl, omega arith, refl)

  clear_entries : (j : ℕ) → 64 ≤ j → j < 64 + 80 * length s.events → put_sidecar s p j ≡ 0
  unfolding put_sidecar record_bytes
  clear_entries j a b = ground arith

  events_sent :
      validate_events s.events ≡ ok → decode_events sent 64 (length s.events) ≡ (ok, s.events)
  unfolding sent
  events_sent v = events_trip s.events 64 (put_sidecar s p) fits.events v clear_entries

  decode-sent :
      validate_state s.state s.terminal_reason s.error_code s.flags ≡ ok
      → ¬ (s.session_id ≡ 0)
      → s.block_first_sample < s.block_end_sample
      → validate_events s.events ≡ ok
      → decode_sidecar sent (record_bytes s) ≡ (ok, some s)
  unfolding decode_sidecar record_bytes
  decode-sent state started ordered v =
      let c = constants_sent in
      ground (
        arith,
        word32_at 0 (omega arith) ∙ c.0,
        word16_at 4 (omega arith) ∙ c.1,
        word16_at 6 (omega arith) ∙ c.2,
        word32_at 8 (omega arith) ∙ c.3,
        word32_at 12 (omega arith) ∙ c.4,
        word16_at 20 (omega arith) ∙ c.5,
        word16_at 22 (omega arith) ∙ c.6,
        header_trip,
        events_sent v,
        fields_sent s.events ∙ fields_trip,
        state,
        few,
      )

decode-sent_unfolded :
    (s : Sidecar) (p : Wire)
    → SidecarFits s
    → length s.events ≤ event_capacity
    → validate_state s.state s.terminal_reason s.error_code s.flags ≡ ok
    → ¬ (s.session_id ≡ 0)
    → s.block_first_sample < s.block_end_sample
    → validate_events s.events ≡ ok
    → decode_sidecar (encode_events 64 s.events (put_sidecar s p)) (record_bytes s) ≡ (ok, some s)
unfolding sent
decode-sent_unfolded s p fits few state started ordered v =
    decode-sent s p fits few state started ordered v

-- what a validator returns
abbrev Verdict : ℤ → Type 0
Verdict r = (r ≡ ok) ⊎ (r ≡ einval)

guard-Verdict : (t : Bool) → Verdict (if t then einval else ok)
guard-Verdict true = inr refl
guard-Verdict false = inl refl

validate_state-cases :
    (state reason error flags : ℕ)
    → (validate_state state reason error flags ≡ ok)
      ⊎ (validate_state state reason error flags ≡ einval)
unfolding validate_state
validate_state-cases state reason error flags = guard-Verdict _

validate_event-cases : (e : Event) → (validate_event e ≡ ok) ⊎ (validate_event e ≡ einval)
unfolding validate_event
validate_event-cases e = guard-Verdict _

validate_events-cases :
    (es : List Event) → (validate_events es ≡ ok) ⊎ (validate_events es ≡ einval)
unfolding validate_events
validate_events-cases [] = inl refl
validate_events-cases (e ∷ es) = ground (arith, validate_event-cases e, validate_events-cases es)

encode_sidecar-eq :
    (s : Sidecar) (bytes n : ℕ) (p : Wire) {sent : Wire}
    → encode_sidecar bytes s p ≡ (pos n, sent)
    → (length s.events ≤ event_capacity)
      × (validate_state s.state s.terminal_reason s.error_code s.flags ≡ ok)
      × ¬ (s.session_id ≡ 0)
      × (s.block_first_sample < s.block_end_sample)
      × (validate_events s.events ≡ ok)
      × (record_bytes s ≡ n)
      × (encode_events 64 s.events (put_sidecar s p) ≡ sent)
unfolding encode_sidecar
encode_sidecar-eq s bytes n p e =
    let state = validate_state-cases s.state s.terminal_reason s.error_code s.flags in
    let events = validate_events-cases s.events in
    (
      ground (arith, state),
      ground (arith, state),
      ground (arith, state),
      ground (arith, state),
      ground (arith, state, events),
      ground (arith, state, events),
      ground (arith, state, events),
    )

-- A sidecar whose fields have the widths of the C types and that the encoder accepts, with any number
-- of events, is decoded to itself from the bytes that it wrote and the number that it returned.
pub sidecar_decode-encode :
    (s : Sidecar) (bytes n : ℕ) (p : Wire) {sent : Wire}
    → SidecarFits s
    → encode_sidecar bytes s p ≡ (pos n, sent)
    → decode_sidecar sent n ≡ (ok, some s)
sidecar_decode-encode s bytes n p {sent = wire} fits e =
    let (few, state, started, ordered, events, size, same) = encode_sidecar-eq s bytes n p e in
    subst (λ k. decode_sidecar wire k ≡ (ok, some s)) size
      (subst (λ q. decode_sidecar q (record_bytes s) ≡ (ok, some s)) same
        (decode-sent_unfolded s p fits few state started ordered events))
