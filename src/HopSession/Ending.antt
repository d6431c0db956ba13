-- ===== src/HopSession/Ending.antt =====
-- When the plan of a session of iiod/spf-hop-session.c has been visited, and how the session ends then.
use libiio.Prelude.{
  ℕ, ◌+◌, ◌-◌, ◌*◌, ◌≤◌, ◌<◌, ◌≡◌, inl, inr, refl, sym, ap, subst, arith, Bool-cases, List, [], ◌∷◌,
  length, Option, some, ok, true, ltb, leb, ◌==◌, ==→eq, not, ◌||◌, if_elim, word64, eilseq,
  eoverflow,
}
use libiio.HopProtocol.{Request, Event, DeviceEvent, Sidecar}
use libiio.HopProtocol.Wire.{Wire}
use libiio.HopProtocol.RequestWire.{validate_request, geometry_valid}
use libiio.HopSession.{Session, Drained, DeviceOps, bits}
use libiio.HopSession.Restore.{normalize_error}
use libiio.HopSession.Events.{edge_overflows, take_events, validate_device_event, anchored}
use libiio.HopSession.Ops.{
  init, on_block, drained_block, finish_block, maybe_complete, with_block, with_dropped, emitted,
  discontinuous,
}
use libiio.HopSession.Inv.{IsValid, IsLive, IsNamed, DeviceContract}
use libiio.HopSession.Live.{
  IsEnded-late, with_block-IsLive, with_dropped-IsLive, take_events-IsLive,
}
use libiio.HopSession.Run.{Call, run}
use libiio.HopSession.Once.{init_request}
use libiio.HopSession.Plan.{IsAligned, next_event}
use libiio.HopSession.Aligned.{dropped-IsAligned}
use libiio.HopSession.Whole.{fail_late, restore_late}
use libiio.HopSession.Reaching.{IsReaching}
use libiio.HopSession.UnderWay.{IsUnderWay, fresh-IsUnderWay, run-IsUnderWay}

-- with all its visits begun a session accepts no further event
none_further :
    (raws : List DeviceEvent) (first : ℕ) (s : Session)
    → IsAligned s
    → s.status.visits_started ≡ s.request.dwell_count
    → (take_events raws first s).0 ≡ 0
    → (take_events raws first s).1 ≡ s
unfolding take_events
none_further [] first s a all h = refl
none_further (raw ∷ raws) first s a all h =
    let d = anchored first raw in
    elim (Bool-cases (validate_device_event s d == 0)) [
      | inl z ↦
          (let v = ==→eq (validate_device_event s d) 0 z in
            let (_, _, _, bound, _, _) = next_event s d a v in absurd (omega (arith, bound, all)))
      | inr nz ↦ absurd (ground (arith, nz, rw nz at h))
    ]

geometry :
    (r : Request)
    → validate_request r ≡ ok
    → r.capture_span_samples ≤ r.dwell_count * r.dwell_samples
unfolding validate_request geometry_valid
geometry r e = ground (arith, e)

dwells : (r : Request) → validate_request r ≡ ok → 0 < r.dwell_count
unfolding validate_request geometry_valid
dwells r e = ground (arith, e)

-- a session whose last visit is over before `end`, with the whole span behind it
record IsDue (end : ℕ) (s : Session) : Type 0 where
  begun : s.have_last_event ≡ true
  spans :
      s.status.startup_invalid_start + s.request.capture_span_samples
      ≤ s.last_event.invalid_end + s.request.dwell_samples
  over : s.last_event.invalid_end + s.request.dwell_samples ≤ end

block-IsDue : (s : Session) (n end : ℕ) → IsDue end s → IsDue end (with_block s n end)
unfolding with_block
block-IsDue s n end due = record { begun = due.begun; spans = due.spans; over = due.over }

dropped-IsDue : (s : Session) (n end : ℕ) → IsDue end s → IsDue end (with_dropped s n)
unfolding with_dropped
dropped-IsDue s n end due = record { begun = due.begun; spans = due.spans; over = due.over }

dropped-visits :
    (s : Session) (n : ℕ)
    → s.status.visits_started ≡ s.request.dwell_count
    → (with_dropped s n).status.visits_started ≡ (with_dropped s n).request.dwell_count
unfolding with_dropped
dropped-visits s n all = all

emitted_late : (s : Session) (n : ℕ) → 3 ≤ s.status.state → 3 ≤ (emitted s n).status.state
unfolding emitted
emitted_late s n late = late

due :
    (s : Session) (end : ℕ)
    → validate_request s.request ≡ ok
    → IsAligned s
    → IsReaching s
    → s.status.visits_started ≡ s.request.dwell_count
    → s.last_event.invalid_end + s.request.dwell_samples ≤ end
    → IsDue end s
due s end request_ok a reach all over =
    let fits = geometry s.request request_ok in
    let some_dwells = dwells s.request request_ok in
    elim (Bool-cases s.have_last_event) [
      | inl h ↦
          (let same : s.status.visits_started * s.request.dwell_samples
                ≡ s.request.dwell_count * s.request.dwell_samples =
              ap (λ k. k * s.request.dwell_samples) all in
            record { begun = h; spans = ground (arith, h, reach, same, fits); over = over })
      | inr n ↦ absurd (omega (arith, a.unbegun n, all, some_dwells))
    ]

module _ {D : Type 0} (ops : DeviceOps D) where
  -- a session that is due does not go on
  maybe_complete_ends :
      (d : D) (s : Session) (end : ℕ)
      → IsLive s
      → IsDue end s
      → 3 ≤ (maybe_complete ops d s end).0.1.status.state
  unfolding maybe_complete
  maybe_complete_ends d s end l at =
      let Q : (ℕ × Session) × D → Type 0 = λ t. 3 ≤ t.0.1.status.state in
      let final_counter = s.last_event.invalid_end + s.request.dwell_samples in
      if_elim Q (not s.have_last_event) (λ n. absurd (ground (arith, n, at.begun)))
        (λ _.
          if_elim Q (edge_overflows s) (λ _. fail_late ops d s 8 (bits eoverflow) l)
            (λ _.
              if_elim Q
                (ltb final_counter s.status.startup_invalid_start
                  || ltb (final_counter - s.status.startup_invalid_start)
                      s.request.capture_span_samples
                  || ltb end final_counter)
                (λ no. absurd (ground (arith, no, at.spans, at.over)))
                (λ _. restore_late ops d s 1 3 final_counter l.unrestored (omega arith))))

  finish_block_ends :
      (d : D) (s : Session) (n first end : ℕ) (es : List Event)
      → IsNamed s.status
      → IsLive s
      → IsDue end s
      → 3 ≤ (finish_block ops d s n first end es).0.2.status.state
  unfolding finish_block
  finish_block_ends d s n first end es named l at =
      let Q : (ℕ × Option Sidecar × Session) × D → Type 0 = λ t. 3 ≤ t.0.2.status.state in
      let ((ret, s₂), d₂) = maybe_complete ops d (with_block s n end) end in
      let late =
        maybe_complete_ends d (with_block s n end) end (with_block-IsLive s n end named l).1
          (block-IsDue s n end at) in
      if_elim Q (ret == 0) (λ _. emitted_late s₂ (length es) late) (λ _. late)

  drained_block_ends :
      (d : D) (s : Session) (drained : Drained) (n first end : ℕ)
      → IsNamed s.status
      → IsLive s
      → IsAligned s
      → s.status.visits_started ≡ s.request.dwell_count
      → IsDue end s
      → 3 ≤ (drained_block ops d s drained n first end).0.2.status.state
  unfolding drained_block
  drained_block_ends d s drained n first end named l a all at =
      let Q : (ℕ × Option Sidecar × Session) × D → Type 0 = λ t. 3 ≤ t.0.2.status.state in
      let counted = with_dropped s drained.dropped in
      let (error, s₂, events) = take_events drained.events first counted in
      let (named₁, l₁) = with_dropped-IsLive s drained.dropped named l in
      let (named₂, l₂) = take_events-IsLive drained.events first counted named₁ l₁ in
      if_elim Q (not (normalize_error drained.ret == 0))
        (λ _. fail_late ops d s 4 (normalize_error drained.ret) l)
        (λ _.
          if_elim Q (ltb 8 (length drained.events)) (λ _. fail_late ops d s 8 (bits eoverflow) l)
            (λ _.
              if_elim Q (not (drained.dropped == 0))
                (λ _. fail_late ops d counted 5 (bits eoverflow) l₁)
                (λ _.
                  if_elim Q (not (error == 0)) (λ _. fail_late ops d s₂ _ error l₂)
                    (λ good.
                      let same : s₂ ≡ counted =
                        none_further drained.events first counted
                          (dropped-IsAligned s drained.dropped a)
                          (dropped-visits s drained.dropped all) (ground (arith, good)) in
                      finish_block_ends d s₂ n first end events named₂ l₂
                        (subst (IsDue end) (sym same) (dropped-IsDue s drained.dropped end at))))))

  on_block_ends :
      (d : D) (s : Session) (n first end : ℕ)
      → IsValid s
      → IsAligned s
      → s.status.state ≡ 2
      → first < end
      → s.status.visits_started ≡ s.request.dwell_count
      → IsDue end s
      → 3 ≤ (on_block ops d s n first end).0.2.status.state
  unfolding on_block
  on_block_ends d s n first end v a running order all at =
      let Q : (ℕ × Option Sidecar × Session) × D → Type 0 = λ t. 3 ≤ t.0.2.status.state in
      let (drained, d₂) = ops.drain_events d in
      let l = IsEnded-late v.phase (omega (arith, running)) in
      if_elim Q (not (s.status.state == 2) || leb end first)
        (λ no. absurd (ground (arith, no, running, order)))
        (λ _.
          if_elim Q (discontinuous s n first end) (λ _. fail_late ops d s 7 (bits eilseq) l)
            (λ _. drained_block_ends d₂ s drained n first end v.named l a all at))

  -- After any calls on a device that reports a known profile, with fewer than 2^64 dwells: where a running session
  -- has begun all its planned visits, a block that reaches the end of the last visit ends the session.
  pub on_block-ends :
      (wire : Wire) (r : Request) (s : Session)
      → init wire r ≡ (0, some s)
      → r.dwell_count < word64
      → DeviceContract ops
      → (calls : List Call) (d : D) (n first end : ℕ)
      → let (q, d₂) = run ops calls d s in
        q.status.state ≡ 2
        → q.status.visits_started ≡ r.dwell_count
        → first < end
        → q.last_event.invalid_end + r.dwell_samples ≤ end
        → 3 ≤ (on_block ops d₂ q n first end).0.2.status.state
  on_block-ends wire r s e small c calls d n first end running all order over =
      let (request_ok, same) = init_request wire r s e in
      let q = (run ops calls d s).0 in
      let u : IsUnderWay r q =
        run-IsUnderWay ops calls r d s c small (rw same (fresh-IsUnderWay r request_ok)) in
      elim u.going [
        | inl late ↦ absurd (omega (arith, late, running))
        | inr (a, reach) ↦
            (let all' : q.status.visits_started ≡ q.request.dwell_count = rw u.request all in
              let over' : q.last_event.invalid_end + q.request.dwell_samples ≤ end =
                rw u.request over in
              let ok' : validate_request q.request ≡ ok = rw u.request request_ok in
              on_block_ends (run ops calls d s).1 q n first end u.valid a running order all'
                (due q end ok' a reach all' over'))
      ]
