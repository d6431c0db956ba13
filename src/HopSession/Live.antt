-- ===== src/HopSession/Live.antt =====
-- What the steps inside the calls of iiod/spf-hop-session.c do to a live session, whatever the device.
use libiio.Prelude.{
  ℕ, ◌≤◌, ◌<◌, ◌≡◌, ◌⊎◌, inl, inr, refl, true, false, ◌==◌, not, ◌&&◌, if_elim, ==→eq, Bool-cases,
  subst, sym, arith, ok, List, [], ◌∷◌,
}
use libiio.HopProtocol.{DeviceEvent, Event, Request}
use libiio.HopProtocol.RequestWire.{validate_request, geometry_valid}
use libiio.HopSession.{Session}
use libiio.HopSession.Restore.{terminal, normalize_error}
use libiio.HopSession.Events.{
  take_events, accept_event, validate_device_event, validate_order, malformed, spanned, anchored,
}
use libiio.HopSession.Ops
use libiio.HopSession.Ops.{
  init, fresh, entering, maybe_complete, finish_block, drained_block, on_block, with_dropped,
  with_block, emitted, discontinuous, no_sidecar,
}
use libiio.HopSession.Inv.{
  IsErrno, IsNamed, IsLive, IsEnded, IsValid, Closing, closing, disconnecting,
  normalize_error-IsErrno,
}

pub fresh-IsValid : (r : Request) → validate_request r ≡ ok → IsValid (fresh r)
unfolding fresh validate_request geometry_valid
fresh-IsValid r e = record {
  named = record {
    session = ground (arith, e);
    planned = ground (arith, e);
    active = inl refl;
    restored = inl refl;
  };
  phase = inl (record {
    early = omega arith;
    quiet = refl;
    unrestored = refl;
    reason = refl;
    error = refl;
  });
}

-- the states before the end
pub entering-IsNamed :
    (s : Session) (state : ℕ) → IsNamed s.status → IsNamed (entering s state).status
unfolding entering
entering-IsNamed s state n = record {
  session = n.session;
  planned = n.planned;
  active = n.active;
  restored = n.restored;
}

pub entering-IsLive : (s : Session) (state : ℕ) → state < 3 → IsLive s → IsLive (entering s state)
unfolding entering
entering-IsLive s state h l = record {
  early = h;
  quiet = l.quiet;
  unrestored = l.unrestored;
  reason = l.reason;
  error = l.error;
}

pub IsEnded-late : {s : Session} → IsLive s ⊎ IsEnded s → s.status.state < 3 → IsLive s
IsEnded-late (inl l) h = l
IsEnded-late (inr e) h = absurd (omega (arith, e.late))

pub arm-IsValid : {s : Session} → IsValid s → IsValid (Ops.arm s).1
unfolding Ops.arm
arm-IsValid {s} v =
    if_elim (λ (t : ℕ × Session). IsValid t.1) (s.status.state == 0)
      (λ z. record {
        named = entering-IsNamed s 1 v.named;
        phase = inl (entering-IsLive s 1 (omega arith) (IsEnded-late v.phase (ground (arith, z))));
      })
      (λ _. v)

validated_profile :
    (s : Session) (d : DeviceEvent) → validate_device_event s d ≡ 0 → d.to_profile < 8
unfolding validate_device_event malformed
validated_profile s d e = ground arith

accept_event-IsNamed :
    (s : Session) (e : Event)
    → e.device.to_profile < 8
    → IsNamed s.status
    → IsNamed (accept_event s e).status
unfolding accept_event
accept_event-IsNamed s e h n = record {
  session = n.session;
  planned = n.planned;
  active = inr h;
  restored = n.restored;
}

accept_event-IsLive : (s : Session) (e : Event) → IsLive s → IsLive (accept_event s e)
unfolding accept_event
accept_event-IsLive s e l = record {
  early = l.early;
  quiet = l.quiet;
  unrestored = l.unrestored;
  reason = l.reason;
  error = l.error;
}

pub take_events-IsLive :
    (raws : List DeviceEvent) (first : ℕ) (s : Session)
    → IsNamed s.status
    → IsLive s
    → let s₂ = (take_events raws first s).1 in IsNamed s₂.status × IsLive s₂
unfolding take_events spanned
take_events-IsLive [] first s n l = (n, l)
take_events-IsLive (raw ∷ raws) first s n l =
    let d = anchored first raw in
    let e = spanned s d in
    if_elim (λ (t : ℕ × Session × List Event). IsNamed t.1.status × IsLive t.1)
      (validate_device_event s d == 0)
      (λ z.
        take_events-IsLive raws first (accept_event s e)
          (accept_event-IsNamed s e (validated_profile s d (==→eq (validate_device_event s d) 0 z))
            n)
          (accept_event-IsLive s e l))
      (λ _. (n, l))

validate_device_event-IsErrno :
    (s : Session) (d : DeviceEvent) → IsErrno (validate_device_event s d)
unfolding validate_device_event validate_order
validate_device_event-IsErrno s d = ground arith

take_events-IsErrno :
    (raws : List DeviceEvent) (first : ℕ) (s : Session) → IsErrno (take_events raws first s).0
unfolding take_events spanned
take_events-IsErrno [] first s = inl refl
take_events-IsErrno (raw ∷ raws) first s =
    let d = anchored first raw in
    if_elim (λ (t : ℕ × Session × List Event). IsErrno t.0) (validate_device_event s d == 0)
      (λ _. take_events-IsErrno raws first (accept_event s (spanned s d)))
      (λ _. validate_device_event-IsErrno s d)

pub refused :
    (raws : List DeviceEvent) (first : ℕ) (s : Session)
    → not ((take_events raws first s).0 == 0) ≡ true
    → 0x80000000 ≤ (take_events raws first s).0
refused raws first s z = elim (take_events-IsErrno raws first s) [
  | inl e ↦ absurd (ground (arith, e, z))
  | inr h ↦ h
]

pub with_block-IsLive :
    (s : Session) (n end : ℕ)
    → IsNamed s.status
    → IsLive s
    → IsNamed (with_block s n end).status × IsLive (with_block s n end)
unfolding with_block
with_block-IsLive s n end named l = (
  record {
    session = named.session;
    planned = named.planned;
    active = named.active;
    restored = named.restored;
  },
  record {
    early = l.early;
    quiet = l.quiet;
    unrestored = l.unrestored;
    reason = l.reason;
    error = l.error;
  },
)

pub with_dropped-IsLive :
    (s : Session) (n : ℕ)
    → IsNamed s.status
    → IsLive s
    → IsNamed (with_dropped s n).status × IsLive (with_dropped s n)
unfolding with_dropped
with_dropped-IsLive s n named l = (
  record {
    session = named.session;
    planned = named.planned;
    active = named.active;
    restored = named.restored;
  },
  record {
    early = l.early;
    quiet = l.quiet;
    unrestored = l.unrestored;
    reason = l.reason;
    error = l.error;
  },
)

pub emitted-IsValid : (s : Session) (n : ℕ) → IsValid s → IsValid (emitted s n)
unfolding emitted
emitted-IsValid s n v = record {
  named = record {
    session = v.named.session;
    planned = v.named.planned;
    active = v.named.active;
    restored = v.named.restored;
  };
  phase = elim v.phase [
    | inl l ↦ inl (record {
      early = l.early;
      quiet = l.quiet;
      unrestored = l.unrestored;
      reason = l.reason;
      error = l.error;
    })
    | inr e ↦ inr (record { late = e.late; restored = e.restored; consistent = e.consistent })
  ];
}

pub negative : (ret : ℕ) → not (normalize_error ret == 0) ≡ true → 0x80000000 ≤ normalize_error ret
negative ret z = elim (normalize_error-IsErrno ret) [
  | inl e ↦ absurd (ground (arith, e, z))
  | inr h ↦ h
]

pub terminal_late : (s : Session) → terminal s ≡ true → 3 ≤ s.status.state
unfolding terminal
terminal_late s t = ground (arith, t)

pub open_state : (s : Session) → terminal s ≡ false → s.status.state < 3
unfolding terminal
open_state s t = ground (arith, t)

pub leaving : (reason : ℕ) → not (reason == 2) && not (reason == 3) ≡ false → Closing 4 reason 0
leaving reason o = elim (Bool-cases (reason == 2)) [
  | inl two ↦ subst (λ r. Closing 4 r 0) (sym (==→eq reason 2 two)) closing
  | inr other ↦
      (let three : reason ≡ 3 = ground (arith, o, other) in
        subst (λ r. Closing 4 r 0) (sym three) disconnecting)
]
