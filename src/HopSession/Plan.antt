-- ===== src/HopSession/Plan.antt =====
-- The events that a session of iiod/spf-hop-session.c hands out, over all its blocks.
use libiio.Prelude.{
  ℕ, ◌+◌, ◌-◌, ◌%◌, ◌≤◌, ◌<◌, ◌≡◌, add64, inl, inr, refl, ap, ◌∙◌, subst, true, false, ◌==◌, ==→eq,
  if◌then◌else◌, if_elim, Bool-cases, arith, List, [], ◌∷◌, Option, none, some, word64,
}
use libiio.HopProtocol.{Request, DeviceEvent, Event}
use libiio.HopProtocol.EventWire.{no_recall}
use libiio.HopSession.{Session}
use libiio.HopSession.Events.{
  malformed, expected_from, out_of_order, validate_order, validate_device_event, spanned, anchored,
  accept_event, take_events,
}
use libiio.HopSession.Sendable.{passed, ordered}

-- the event before, if any, and the number of events so far
abbrev pub Position : Type 0
Position = Option Event × ℕ

abbrev pub position : Session → Position
position s = (if s.have_last_event then some s.last_event else none, s.status.visits_started)

abbrev pub after : Position → List Event → Position
after p [] = p
after (prev, i) (e ∷ es) = after (some e, i + 1) es

-- the edge at which the next event begins
abbrev pub BeginsAt : ℕ → Option Event → Event → Type 0
BeginsAt dwell none e =
    (e.device.kind ≡ 1)
    × (e.device.from_profile ≡ 255)
    × (e.invalid_start ≡ e.device.transition_before)
BeginsAt dwell (some prev) e =
    (e.device.kind ≡ 2)
    × (e.device.from_profile ≡ prev.device.to_profile)
    × (e.invalid_start ≡ prev.invalid_end + dwell)

-- The events from a position on are those of the plan: numbered, with the profiles in turn, each one dwell after
-- the invalid span of the one before.
abbrev pub FollowsPlan : Request → Position → List Event → Type 0
FollowsPlan r p [] = Unit
FollowsPlan r (prev, i) (e ∷ es) =
    ((e.device.event_sequence ≡ i)
      × (e.device.dwell_index ≡ i)
      × (e.device.to_profile ≡ i % 8)
      × (i < r.dwell_count)
      × (e.invalid_start ≤ e.invalid_end)
      × BeginsAt r.dwell_samples prev e)
    × FollowsPlan r (some e, i + 1) es

-- the counts of a session agree
pub record IsAligned (s : Session) : Type 0 where
  pub numbered : s.status.next_event_sequence ≡ s.status.visits_started
  pub begun : s.have_last_event ≡ true → 0 < s.status.visits_started
  pub unbegun : s.have_last_event ≡ false → s.status.visits_started ≡ 0
  pub turn :
      s.have_last_event ≡ true → s.last_event.device.to_profile ≡ (s.status.visits_started - 1) % 8

order_facts :
    (s : Session) (d : DeviceEvent)
    → out_of_order s d ≡ false
    → (d.event_sequence ≡ s.status.next_event_sequence)
      × (d.dwell_index ≡ s.status.visits_started)
      × (d.dwell_index < s.request.dwell_count)
      × (d.kind ≡ (if d.dwell_index == 0 then 1 else 2))
unfolding out_of_order
order_facts s d o = ground (arith, o)

profile_facts :
    (s : Session) (d : DeviceEvent)
    → malformed s d ≡ false
    → (d.from_profile ≡ expected_from d)
      × (d.to_profile ≡ d.dwell_index % 8)
      × (d.transition_before ≤ d.transition_after)
unfolding malformed
profile_facts s d m = ground (arith, m)

span_facts :
    (s : Session) (d : DeviceEvent)
    → d.transition_before ≤ d.transition_after
    → validate_order s (spanned s d) ≡ 0
    → (spanned s d).invalid_start ≤ (spanned s d).invalid_end
unfolding spanned
span_facts s d span order = elim (Bool-cases (no_recall d)) [
  | inl n ↦ rw n (omega arith)
  | inr n ↦ (let early = ordered s d order n in rw n (omega (arith, early, span)))
]

begins :
    (s : Session) (d : DeviceEvent)
    → IsAligned s
    → d.dwell_index ≡ s.status.visits_started
    → d.kind ≡ (if d.dwell_index == 0 then 1 else 2)
    → d.from_profile ≡ expected_from d
    → BeginsAt s.request.dwell_samples (position s).0 (spanned s d)
unfolding spanned expected_from
begins s d a index kind from = elim (Bool-cases s.have_last_event) [
  | inl h ↦
      (let some_before = a.begun h in
        let turn = a.turn h in
        rw h (ground (arith, index, kind), ground (arith, index, from, turn, some_before), refl))
  | inr n ↦
      (let none_before = a.unbegun n in
        rw n (
          ground (arith, index, kind, none_before),
          ground (arith, index, from, none_before),
          refl,
        ))
]

-- an event that is validated is the next one of the plan
pub next_event :
    (s : Session) (d : DeviceEvent)
    → IsAligned s
    → validate_device_event s d ≡ 0
    → let e = spanned s d in
      (e.device.event_sequence ≡ s.status.visits_started)
      × (e.device.dwell_index ≡ s.status.visits_started)
      × (e.device.to_profile ≡ s.status.visits_started % 8)
      × (s.status.visits_started < s.request.dwell_count)
      × (e.invalid_start ≤ e.invalid_end)
      × BeginsAt s.request.dwell_samples (position s).0 e
unfolding spanned
next_event s d a v =
    let (o, m, _, _, order) = passed s d v in
    let (seq, index, bound, kind) = order_facts s d o in
    let (from, to, span) = profile_facts s d m in
    (
      seq ∙ a.numbered,
      index,
      to ∙ ap (λ i. i % 8) index,
      subst (λ i. i < s.request.dwell_count) index bound,
      span_facts s d span order,
      begins s d a index kind from,
    )

pub accept_event-IsAligned :
    (s : Session) (d : DeviceEvent)
    → s.request.dwell_count < word64
    → IsAligned s
    → validate_device_event s d ≡ 0
    → IsAligned (accept_event s (spanned s d))
unfolding accept_event spanned
accept_event-IsAligned s d small a v =
    let (o, m, _, _, _) = passed s d v in
    let (seq, index, bound, _) = order_facts s d o in
    let (_, to, _) = profile_facts s d m in
    record {
      numbered = ap (λ n. add64 n 1) a.numbered;
      begun = λ _. omega arith;
      unbegun = λ e. absurd (cc e);
      turn = λ _. omega arith;
    }

accepted_position :
    (s : Session) (d : DeviceEvent)
    → s.request.dwell_count < word64
    → validate_device_event s d ≡ 0
    → position (accept_event s (spanned s d)) ≡ (some (spanned s d), s.status.visits_started + 1)
unfolding accept_event
accepted_position s d small v =
    let (_, index, bound, _) = order_facts s d (passed s d v).0 in
    let count : add64 s.status.visits_started 1 ≡ s.status.visits_started + 1 = omega arith in
    rw count refl

pub take_events_plan :
    (raws : List DeviceEvent) (first : ℕ) (s : Session)
    → s.request.dwell_count < word64
    → IsAligned s
    → let (_, s₂, es) = take_events raws first s in
      FollowsPlan s.request (position s) es × (position s₂ ≡ after (position s) es) × IsAligned s₂
unfolding take_events
take_events_plan [] first s small a = (tt, refl, a)
take_events_plan (raw ∷ raws) first s small a =
    let d = anchored first raw in
    let e = spanned s d in
    if_elim
      (λ (t : ℕ × Session × List Event).
        FollowsPlan s.request (position s) t.2
        × (position t.1 ≡ after (position s) t.2)
        × IsAligned t.1)
      (validate_device_event s d == 0)
      (λ z.
        let v = ==→eq (validate_device_event s d) 0 z in
        let next = accept_event-IsAligned s d small a v in
        let at = accepted_position s d small v in
        let (plan, end, aligned) = take_events_plan raws first (accept_event s e) small next in
        (
          (
            next_event s d a v,
            subst (λ p. FollowsPlan s.request p (take_events raws first (accept_event s e)).2) at
                plan,
          ),
          end ∙ ap (λ p. after p (take_events raws first (accept_event s e)).2) at,
          aligned,
        ))
      (λ _. (tt, refl, a))
