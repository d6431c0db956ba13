-- ===== src/HopSession/Reaching.antt =====
-- How far the visits of a session of iiod/spf-hop-session.c reach: each is one dwell behind the one before.
use libiio.Prelude.{
  ℕ, ◌+◌, ◌*◌, ◌≤◌, ◌<◌, ◌≡◌, ◌⊎◌, refl, sym, subst, true, false, ltb, leb, ◌==◌, ==→eq, not, ◌&&◌,
  ◌||◌, add64, if_elim, Bool-cases, inl, inr, arith, List, [], ◌∷◌, length, Option, word64, eilseq,
  eoverflow,
}
use libiio.HopProtocol.{DeviceEvent, Event, Sidecar}
use libiio.HopSession.{Session, Drained, DeviceOps, bits}
use libiio.HopSession.Restore.{terminal, normalize_error, fail}
use libiio.HopSession.Events.{take_events, accept_event, validate_device_event, spanned, anchored}
use libiio.HopSession.Ops
use libiio.HopSession.Ops.{
  entering, emitted, on_block, drained_block, finish_block, maybe_complete, with_dropped,
  with_block, discontinuous, no_sidecar,
}
use libiio.HopSession.Inv.{IsValid, IsNamed, IsLive}
use libiio.HopSession.Live.{
  IsEnded-late, open_state, take_events-IsLive, with_dropped-IsLive, with_block-IsLive,
  entering-IsLive,
}
use libiio.HopSession.Run.{Call, arm, start, block, cancel, step}
use libiio.HopSession.Plan.{IsAligned, next_event, accept_event-IsAligned}
use libiio.HopSession.Aligned.{Stops, dropped-IsAligned}
use libiio.HopSession.Whole.{fail_late, restore_late, maybe_complete_stands}

-- The visits so far, one dwell each, lie before the end of the last one.
abbrev pub IsReaching : Session → Type 0
IsReaching s =
    (s.have_last_event ≡ false)
    ⊎ (s.status.startup_invalid_start + s.status.visits_started * s.request.dwell_samples
        ≤ s.last_event.invalid_end + s.request.dwell_samples)

-- a session that has ended need not reach anywhere
abbrev pub IsGoing : Session → Type 0
IsGoing s = (3 ≤ s.status.state) ⊎ IsReaching s

next_start :
    (s : Session) (d : DeviceEvent)
    → s.have_last_event ≡ true
    → (spanned s d).invalid_start ≡ s.last_event.invalid_end + s.request.dwell_samples
unfolding spanned
next_start s d h = rw h refl

accept_event-IsReaching :
    (s : Session) (d : DeviceEvent)
    → s.request.dwell_count < word64
    → IsAligned s
    → validate_device_event s d ≡ 0
    → IsReaching s
    → IsReaching (accept_event s (spanned s d))
unfolding accept_event spanned
accept_event-IsReaching s d small a v reach =
    let (seq, _, _, bound, span, _) = next_event s d a v in
    let one_more : add64 s.status.visits_started 1 ≡ s.status.visits_started + 1 = omega arith in
    let more : (s.status.visits_started + 1) * s.request.dwell_samples
        ≡ s.status.visits_started * s.request.dwell_samples + s.request.dwell_samples =
      omega arith in
    elim (Bool-cases s.have_last_event) [
      | inl h ↦
          (let later : ((spanned s d).device.event_sequence == 0) ≡ false =
              ground (arith, seq, a.begun h) in
            let at = next_start s d h in
            inr (rw (later, one_more, more) (ground (arith, reach, h, at, span))))
      | inr n ↦
          (let none_yet = a.unbegun n in
            let first : ((spanned s d).device.event_sequence == 0) ≡ true =
              ground (arith, seq, none_yet) in
            inr (rw (first, one_more, none_yet) (omega (arith, span))))
    ]

same_request :
    (s : Session) (e : Event)
    → s.request.dwell_count < word64
    → (accept_event s e).request.dwell_count < word64
unfolding accept_event
same_request s e small = small

take_events-IsReaching :
    (raws : List DeviceEvent) (first : ℕ) (s : Session)
    → s.request.dwell_count < word64
    → IsAligned s
    → IsReaching s
    → IsReaching (take_events raws first s).1
unfolding take_events
take_events-IsReaching [] first s small a reach = reach
take_events-IsReaching (raw ∷ raws) first s small a reach =
    let d = anchored first raw in
    if_elim (λ (t : ℕ × Session × List Event). IsReaching t.1) (validate_device_event s d == 0)
      (λ z.
        let v = ==→eq (validate_device_event s d) 0 z in
        take_events-IsReaching raws first (accept_event s (spanned s d))
          (same_request s (spanned s d) small) (accept_event-IsAligned s d small a v)
          (accept_event-IsReaching s d small a v reach))
      (λ _. reach)

-- what is set around the events does not move them
block-IsReaching : (s : Session) (n end : ℕ) → IsReaching s → IsReaching (with_block s n end)
unfolding with_block
block-IsReaching s n end reach = reach

dropped-IsReaching : (s : Session) (n : ℕ) → IsReaching s → IsReaching (with_dropped s n)
unfolding with_dropped
dropped-IsReaching s n reach = reach

emitted-IsGoing : (s : Session) (n : ℕ) → IsGoing s → IsGoing (emitted s n)
unfolding emitted
emitted-IsGoing s n going = going

entering-IsReaching : (s : Session) (state : ℕ) → IsReaching s → IsReaching (entering s state)
unfolding entering
entering-IsReaching s state reach = reach

stopped-IsGoing : (s t : Session) (ret : ℕ) → Stops s (ret, t) → IsReaching s → IsGoing t
unfolding Stops
stopped-IsGoing s t ret (inl late) reach = inl late
stopped-IsGoing s t ret (inr (_, same)) reach = inr (subst IsReaching (sym same) reach)

drained_events :
    (drained : Drained) (first : ℕ) (s : Session)
    → s.request.dwell_count < word64
    → IsAligned s
    → IsReaching s
    → IsReaching (take_events drained.events first (with_dropped s drained.dropped)).1
unfolding with_dropped
drained_events drained first s small a reach =
    take_events-IsReaching drained.events first (with_dropped s drained.dropped) small
      (dropped-IsAligned s drained.dropped a) reach

module _ {D : Type 0} (ops : DeviceOps D) where
  finish_block-IsGoing :
      (d : D) (s : Session) (n first end : ℕ) (es : List Event)
      → IsNamed s.status
      → IsLive s
      → IsReaching s
      → IsGoing (finish_block ops d s n first end es).0.2
  unfolding finish_block
  finish_block-IsGoing d s n first end es named l reach =
      let Q : (ℕ × Option Sidecar × Session) × D → Type 0 = λ t. IsGoing t.0.2 in
      let ((ret, s₂), d₂) = maybe_complete ops d (with_block s n end) end in
      let done =
        stopped-IsGoing (with_block s n end) s₂ ret
          (maybe_complete_stands ops d (with_block s n end) end
            (with_block-IsLive s n end named l).1)
          (block-IsReaching s n end reach) in
      if_elim Q (ret == 0) (λ _. emitted-IsGoing s₂ (length es) done) (λ _. done)

  failing-IsGoing :
      (d : D) (s : Session) (reason error : ℕ)
      → IsLive s
      → IsGoing (no_sidecar (fail ops d s reason error)).0.2
  failing-IsGoing d s reason error l = inl (fail_late ops d s reason error l)

  drained_block-IsGoing :
      (d : D) (s : Session) (drained : Drained) (n first end : ℕ)
      → IsValid s
      → IsLive s
      → IsAligned s
      → s.request.dwell_count < word64
      → IsReaching s
      → IsGoing (drained_block ops d s drained n first end).0.2
  unfolding drained_block
  drained_block-IsGoing d s drained n first end v l a small reach =
      let Q : (ℕ × Option Sidecar × Session) × D → Type 0 = λ t. IsGoing t.0.2 in
      let counted = with_dropped s drained.dropped in
      let (error, s₂, events) = take_events drained.events first counted in
      let (named₁, l₁) = with_dropped-IsLive s drained.dropped v.named l in
      let (named₂, l₂) = take_events-IsLive drained.events first counted named₁ l₁ in
      let reach₂ = drained_events drained first s small a reach in
      if_elim Q (not (normalize_error drained.ret == 0))
        (λ _. failing-IsGoing d s 4 (normalize_error drained.ret) l)
        (λ _.
          if_elim Q (ltb 8 (length drained.events)) (λ _. failing-IsGoing d s 8 (bits eoverflow) l)
            (λ _.
              if_elim Q (not (drained.dropped == 0))
                (λ _. failing-IsGoing d counted 5 (bits eoverflow) l₁)
                (λ _.
                  if_elim Q (not (error == 0)) (λ _. failing-IsGoing d s₂ _ error l₂)
                    (λ _. finish_block-IsGoing d s₂ n first end events named₂ l₂ reach₂))))

  on_block-IsGoing :
      (d : D) (s : Session) (n first end : ℕ)
      → IsValid s
      → IsAligned s
      → s.request.dwell_count < word64
      → IsReaching s
      → IsGoing (on_block ops d s n first end).0.2
  unfolding on_block
  on_block-IsGoing d s n first end v a small reach =
      let Q : (ℕ × Option Sidecar × Session) × D → Type 0 = λ t. IsGoing t.0.2 in
      let (drained, d₂) = ops.drain_events d in
      if_elim Q (not (s.status.state == 2) || leb end first) (λ _. inr reach)
        (λ o.
          let l = IsEnded-late v.phase (ground (arith, o)) in
          if_elim Q (discontinuous s n first end) (λ _. failing-IsGoing d s 7 (bits eilseq) l)
            (λ _. drained_block-IsGoing d₂ s drained n first end v l a small reach))

  start-IsGoing : (d : D) (s : Session) → IsValid s → IsReaching s → IsGoing (Ops.start ops d s).0.1
  unfolding Ops.start
  start-IsGoing d s v reach =
      let Q : (ℕ × Session) × D → Type 0 = λ t. IsGoing t.0.1 in
      let (ret, d₂) = ops.submit_plan d s.request in
      if_elim Q (not (s.status.state == 0) && not (s.status.state == 1)) (λ _. inr reach)
        (λ o.
          let l = IsEnded-late v.phase (ground (arith, o)) in
          if_elim Q (not (normalize_error ret == 0))
            (λ _. inl (
              fail_late ops d₂ (entering s 1) 4 (normalize_error ret)
                (entering-IsLive s 1 (omega arith) l)))
            (λ _. inr (entering-IsReaching s 2 reach)))

  cancel-IsGoing :
      (d : D) (s : Session) (reason : ℕ)
      → IsValid s
      → IsReaching s
      → IsGoing (Ops.cancel ops d s reason).0.1
  unfolding Ops.cancel
  cancel-IsGoing d s reason v reach =
      let Q : (ℕ × Session) × D → Type 0 = λ t. IsGoing t.0.1 in
      if_elim Q (not (reason == 2) && not (reason == 3)) (λ _. inr reach)
        (λ _.
          if_elim Q (terminal s) (λ _. inr reach)
            (λ t. inl (
              restore_late ops d s reason 4 0 (IsEnded-late v.phase (open_state s t)).unrestored
                (omega arith))))

  pub step-IsGoing :
      (call : Call) (d : D) (s : Session)
      → IsValid s
      → IsAligned s
      → s.request.dwell_count < word64
      → IsReaching s
      → IsGoing (step ops call d s).0.2
  unfolding step Ops.arm
  step-IsGoing arm d s v a small reach =
      if_elim (λ (t : ℕ × Session). IsGoing t.1) (s.status.state == 0)
        (λ _. inr (entering-IsReaching s 1 reach)) (λ _. inr reach)
  step-IsGoing start d s v a small reach = start-IsGoing d s v reach
  step-IsGoing (block n first end) d s v a small reach =
      on_block-IsGoing d s n first end v a small reach
  step-IsGoing (cancel reason) d s v a small reach = cancel-IsGoing d s reason v reach
