-- ===== src/HopSession/Sendable.antt =====
-- The events that a session of iiod/spf-hop-session.c accepts are ones that the hop protocol can carry.
use Prim.Native.Nat.{bit_or}
use libiio.Prelude.{
  ℕ, zero, suc, ◌+◌, ◌^◌, ◌≤◌, ◌<◌, ◌≡◌, ◌⊎◌, inl, inr, refl, ap, true, false, ◌==◌, ==→eq, ◌&&◌,
  if_elim, Bool-cases, Option-cases, arith, List, [], ◌∷◌, length, get_or, some, ok,
}
use libiio.HopProtocol.{Profile, Request, DeviceEvent, Event}
use libiio.HopProtocol.RequestWire.{validate_request, geometry_valid, profiles_valid, profile_valid}
use libiio.HopProtocol.EventWire.{no_recall, validate_event, validate_events}
use libiio.HopSession.{Session}
use libiio.HopSession.Events.{
  edge_overflows, empty_profile, malformed, off_profile, out_of_range, out_of_order, validate_order,
  validate_device_event, spanned, anchored, accept_event, take_events,
}

slot_bound :
    (r : Request) (slots i : ℕ) (p : Profile)
    → profile_valid r slots i p ≡ true
    → p.fastlock_slot < 8
unfolding profile_valid
slot_bound r slots i p e = ground (arith, e)

first_valid :
    (r : Request) (slots i : ℕ) (p : Profile) (ps : List Profile) (all : ℕ)
    → profiles_valid r slots i (p ∷ ps) ≡ some all
    → (profile_valid r slots i p ≡ true)
      × (profiles_valid r (bit_or slots (2 ^ p.fastlock_slot)) (i + 1) ps ≡ some all)
unfolding profiles_valid
first_valid r slots i p ps all e = elim (Bool-cases (profile_valid r slots i p)) [
  | inl v ↦ (v, rw v at e)
  | inr w ↦ absurd (cc (rw w at e))
]

slots_bound :
    (ps : List Profile) (r : Request) (slots i j all : ℕ)
    → profiles_valid r slots i ps ≡ some all
    → (get_or ps j empty_profile).fastlock_slot < 8
slots_bound [] r slots i j all e = omega arith
slots_bound (p ∷ ps) r slots i zero all e =
    slot_bound r slots i p (first_valid r slots i p ps all e).0
slots_bound (p ∷ ps) r slots i (suc j) all e =
    slots_bound ps r (bit_or slots (2 ^ p.fastlock_slot)) (i + 1) j all
      (first_valid r slots i p ps all e).1

request_slots :
    (r : Request) (j : ℕ)
    → validate_request r ≡ ok
    → (get_or r.profiles j empty_profile).fastlock_slot < 8
unfolding validate_request
request_slots r j e = elim (Bool-cases (geometry_valid r)) [
  | inl g ↦ elim (Option-cases (profiles_valid r 0 0 r.profiles)) [
    | inl n ↦ absurd (cc (rw (g, n) at e))
    | inr (all, v) ↦ slots_bound r.profiles r 0 0 j all v
  ]
  | inr n ↦ absurd (cc (rw n at e))
]

-- the tests that a validated event has passed
pub passed :
    (s : Session) (d : DeviceEvent)
    → validate_device_event s d ≡ 0
    → (out_of_order s d ≡ false)
      × (malformed s d ≡ false)
      × (s.have_last_event && edge_overflows s ≡ false)
      × (off_profile s d ≡ false)
      × (validate_order s (spanned s d) ≡ 0)
unfolding validate_device_event
passed s d e = ground (arith, e)

known_slot :
    (s : Session) (d : DeviceEvent)
    → validate_request s.request ≡ ok
    → off_profile s d ≡ false
    → d.fastlock_slot < 8
unfolding off_profile
known_slot s d r off = ground (arith, off, request_slots s.request d.to_profile r)

pub ordered :
    (s : Session) (d : DeviceEvent)
    → validate_order s (spanned s d) ≡ 0
    → no_recall d ≡ false
    → (spanned s d).invalid_start ≤ d.transition_before
unfolding validate_order out_of_range spanned
ordered s d o n = ground (arith, o, n)

known_kind :
    (s : Session) (d : DeviceEvent) → out_of_order s d ≡ false → (d.kind ≡ 1) ⊎ (d.kind ≡ 2)
unfolding out_of_order
known_kind s d o = ground (arith, o)

event_fields :
    (s : Session) (d : DeviceEvent)
    → malformed s d ≡ false
    → d.fastlock_slot < 8
    → (d.kind ≡ 1) ⊎ (d.kind ≡ 2)
    → (no_recall d ≡ false → (spanned s d).invalid_start ≤ d.transition_before)
    → validate_event (spanned s d) ≡ ok
unfolding malformed spanned validate_event
event_fields s d m slot kind o = elim (Bool-cases (no_recall d)) [
  | inl n ↦ ground (arith, m, n)
  | inr n ↦ let before = o n in ground (arith, m, n, before)
]

spanned-valid :
    (s : Session) (d : DeviceEvent)
    → validate_request s.request ≡ ok
    → validate_device_event s d ≡ 0
    → validate_event (spanned s d) ≡ ok
spanned-valid s d r e =
    let (order_ok, m, _, off, order) = passed s d e in
    event_fields s d m (known_slot s d r off) (known_kind s d order_ok) (ordered s d order)

pub take_events-valid :
    (raws : List DeviceEvent) (first : ℕ) (s : Session)
    → validate_request s.request ≡ ok
    → let (error, s₂, es) = take_events raws first s in
      error ≡ 0 → (validate_events es ≡ ok) × (length es ≡ length raws)
unfolding take_events accept_event validate_events spanned
take_events-valid [] first s r = λ z. (refl, refl)
take_events-valid (raw ∷ raws) first s r =
    let d = anchored first raw in
    let e = spanned s d in
    if_elim
      (λ (t : ℕ × Session × List Event).
        t.0 ≡ 0 → (validate_events t.2 ≡ ok) × (length t.2 ≡ suc (length raws)))
      (validate_device_event s d == 0)
      (λ v z.
        let (events, count) = take_events-valid raws first (accept_event s e) r z in
        let good : validate_event e ≡ ok =
          spanned-valid s d r (==→eq (validate_device_event s d) 0 v) in
        (rw good events, ap suc count))
      (λ nv z. absurd (cc (rw z at nv)))
