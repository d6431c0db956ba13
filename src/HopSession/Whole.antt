-- ===== src/HopSession/Whole.antt =====
-- The plan of iiod/spf-hop-session.c over all the calls of a client: what a call leaves carries it on.
use libiio.Prelude.{
  ℕ, ◌+◌, ◌-◌, ◌≤◌, ◌<◌, ◌≡◌, inl, inr, refl, subst, false, ltb, leb, ◌==◌, not, ◌&&◌, ◌||◌,
  if_elim, arith, List, [], ◌∷◌, ◌++◌, length, Option, none, some, word64, eilseq, eoverflow,
}
use libiio.HopProtocol.{Request, Event, Sidecar, Status}
use libiio.HopProtocol.Wire.{Wire}
use libiio.HopSession.{Session, Drained, DeviceOps, bits}
use libiio.HopSession.Restore.{
  terminal, normalize_error, restored_status, restore, marked, failed_as, fail,
}
use libiio.HopSession.Events.{edge_overflows, take_events}
use libiio.HopSession.Ops
use libiio.HopSession.Ops.{
  init, fresh, entering, emitted, on_block, drained_block, finish_block, maybe_complete,
  with_dropped, with_block, discontinuous, sidecar_of, no_sidecar,
}
use libiio.HopSession.Inv.{IsValid, IsNamed, IsLive, DeviceContract}
use libiio.HopSession.Live.{
  IsEnded-late, terminal_late, open_state, fresh-IsValid, take_events-IsLive, with_dropped-IsLive,
  with_block-IsLive, entering-IsLive,
}
use libiio.HopSession.Run.{Call, arm, start, block, cancel, step, step-IsValid}
use libiio.HopSession.Frame.{step_keeps}
use libiio.HopSession.Once.{init_request, ended-step}
use libiio.HopSession.Plan.{Position, position, after, FollowsPlan, IsAligned}
use libiio.HopSession.Aligned.{
  events_of, Carries, Stands, Stops, block-Stands, broken_late, done_stands, dropped_plan,
  emitted-Stands, entering-Stands, plan_append, silent, spoken, still, stopped,
}

module _ {D : Type 0} (ops : DeviceOps D) where
  pub restore_late :
      (d : D) (s : Session) (reason final_state required : ℕ)
      → s.restore_called ≡ false
      → 3 ≤ final_state
      → 3 ≤ (restore ops d s reason final_state required).0.1.status.state
  unfolding restore restored_status
  restore_late d s reason final_state required u late = rw u (ground arith)

  pub fail_late :
      (d : D) (s : Session) (reason error : ℕ)
      → IsLive s
      → 3 ≤ (fail ops d s reason error).0.1.status.state
  unfolding fail marked failed_as
  fail_late d s reason error l =
      let late = restore_late d (marked s reason error) reason 5 0 l.unrestored (omega arith) in
      if_elim (λ (t : (ℕ × Session) × D). 3 ≤ t.0.1.status.state) (terminal s)
        (λ t. terminal_late s t)
        (λ _.
          if_elim (λ (st : Status). 3 ≤ st.state)
            ((restore ops d (marked s reason error) reason 5 0).0.0 == 0) (λ _. omega arith)
            (λ _. late))

  -- a failure carries the plan nowhere
  fail-Carries :
      (d : D) (s₀ s : Session) (reason error : ℕ)
      → IsLive s
      → Carries s₀ (no_sidecar (fail ops d s reason error)).0
  fail-Carries d s₀ s reason error l = silent s₀ _ _ (inl (fail_late d s reason error l))

  pub maybe_complete_stands :
      (d : D) (s : Session) (end : ℕ) → IsLive s → Stops s (maybe_complete ops d s end).0
  unfolding maybe_complete
  maybe_complete_stands d s end l =
      let Q : (ℕ × Session) × D → Type 0 = λ t. Stops s t.0 in
      let final_counter = s.last_event.invalid_end + s.request.dwell_samples in
      if_elim Q (not s.have_last_event) (λ _. still s)
        (λ _.
          if_elim Q (edge_overflows s) (λ _. stopped s _ _ (fail_late d s 8 (bits eoverflow) l))
            (λ _.
              if_elim Q
                (ltb final_counter s.status.startup_invalid_start
                  || ltb (final_counter - s.status.startup_invalid_start)
                      s.request.capture_span_samples
                  || ltb end final_counter)
                (λ _. still s)
                (λ _.
                  stopped s _ _ (restore_late d s 1 3 final_counter l.unrestored (omega arith)))))

  late-Carries :
      (call : Call) (d : D) (s : Session) → 3 ≤ s.status.state → Carries s (step ops call d s).0
  unfolding Carries
  late-Carries call d s late =
      let (same, _, quiet) = ended-step ops call d s late in (rw quiet tt, inl (rw same late))

  finish_block-Carries :
      (d : D) (s₀ s : Session) (n first end : ℕ) (es : List Event)
      → IsNamed s.status
      → IsLive s
      → IsAligned s
      → FollowsPlan s₀.request (position s₀) es
      → position s ≡ after (position s₀) es
      → Carries s₀ (finish_block ops d s n first end es).0
  unfolding finish_block
  finish_block-Carries d s₀ s n first end es named l a plan at =
      let ((ret, s₂), d₂) = maybe_complete ops d (with_block s n end) end in
      let done =
        done_stands s₂ (with_block s n end) ret (
          maybe_complete_stands d (with_block s n end) end (with_block-IsLive s n end named l).1) in
      let Q : (ℕ × Option Sidecar × Session) × D → Type 0 = λ t. Carries s₀ t.0 in
      if_elim Q (ret == 0)
        (λ _. spoken s₀ _ _ (sidecar_of s₂ n first end es) plan (
          emitted-Stands (after (position s₀) es) s₂ (length es)
            (block-Stands (after (position s₀) es) s s₂ n end ret done at a)))
        (λ bad. silent s₀ s₂ ret (inl (broken_late s₂ (with_block s n end) ret done bad)))

  drained_block-Carries :
      (d : D) (s : Session) (drained : Drained) (n first end : ℕ)
      → IsValid s
      → IsLive s
      → IsAligned s
      → s.request.dwell_count < word64
      → Carries s (drained_block ops d s drained n first end).0
  unfolding drained_block
  drained_block-Carries d s drained n first end v l a small =
      let Q : (ℕ × Option Sidecar × Session) × D → Type 0 = λ t. Carries s t.0 in
      let counted = with_dropped s drained.dropped in
      let (error, s₂, events) = take_events drained.events first counted in
      let (named₁, l₁) = with_dropped-IsLive s drained.dropped v.named l in
      let (named₂, l₂) = take_events-IsLive drained.events first counted named₁ l₁ in
      let (plan, at, a₂) = dropped_plan drained first s small a in
      if_elim Q (not (normalize_error drained.ret == 0))
        (λ _. fail-Carries d s s 4 (normalize_error drained.ret) l)
        (λ _.
          if_elim Q (ltb 8 (length drained.events)) (λ _. fail-Carries d s s 8 (bits eoverflow) l)
            (λ _.
              if_elim Q (not (drained.dropped == 0))
                (λ _. fail-Carries d s counted 5 (bits eoverflow) l₁)
                (λ _.
                  if_elim Q (not (error == 0)) (λ _. fail-Carries d s s₂ _ error l₂)
                    (λ _. finish_block-Carries d s s₂ n first end events named₂ l₂ a₂ plan at))))

  start-Carries :
      (d : D) (s : Session) → IsValid s → IsAligned s → Carries s (no_sidecar (Ops.start ops d s)).0
  unfolding Ops.start
  start-Carries d s v a =
      let Q : (ℕ × Session) × D → Type 0 = λ t. Carries s (no_sidecar t).0 in
      let (ret, d₂) = ops.submit_plan d s.request in
      if_elim Q (not (s.status.state == 0) && not (s.status.state == 1))
        (λ _. silent s s _ (inr (refl, a)))
        (λ o.
          if_elim Q (not (normalize_error ret == 0))
            (λ _.
              fail-Carries d₂ s (entering s 1) 4 (normalize_error ret)
                (entering-IsLive s 1 (omega arith) (IsEnded-late v.phase (ground (arith, o)))))
            (λ _. silent s (entering s 2) _ (entering-Stands s 2 a)))

  block-Carries :
      (d : D) (s : Session) (n first end : ℕ)
      → IsValid s
      → IsAligned s
      → s.request.dwell_count < word64
      → Carries s (on_block ops d s n first end).0
  unfolding on_block
  block-Carries d s n first end v a small =
      let Q : (ℕ × Option Sidecar × Session) × D → Type 0 = λ t. Carries s t.0 in
      let (drained, d₂) = ops.drain_events d in
      if_elim Q (not (s.status.state == 2) || leb end first) (λ _. silent s s _ (inr (refl, a)))
        (λ o.
          let l = IsEnded-late v.phase (ground (arith, o)) in
          if_elim Q (discontinuous s n first end) (λ _. fail-Carries d s s 7 (bits eilseq) l)
            (λ _. drained_block-Carries d₂ s drained n first end v l a small))

  cancel-Carries :
      (d : D) (s : Session) (reason : ℕ)
      → IsValid s
      → IsAligned s
      → Carries s (no_sidecar (Ops.cancel ops d s reason)).0
  unfolding Ops.cancel
  cancel-Carries d s reason v a =
      let Q : (ℕ × Session) × D → Type 0 = λ t. Carries s (no_sidecar t).0 in
      if_elim Q (not (reason == 2) && not (reason == 3)) (λ _. silent s s _ (inr (refl, a)))
        (λ _.
          if_elim Q (terminal s) (λ _. silent s s _ (inr (refl, a)))
            (λ t. silent s _ _ (
              inl (
                restore_late d s reason 4 0 (IsEnded-late v.phase (open_state s t)).unrestored
                  (omega arith)))))

  pub step-Carries :
      (call : Call) (d : D) (s : Session)
      → IsValid s
      → Stands (position s) s
      → s.request.dwell_count < word64
      → Carries s (step ops call d s).0
  unfolding step Ops.arm
  step-Carries call d s v (inl late) small = late-Carries call d s late
  step-Carries arm d s v (inr (_, a)) small =
      let Q : ℕ × Session → Type 0 = λ t. Carries s (t.0, none, t.1) in
      if_elim Q (s.status.state == 0) (λ _. silent s (entering s 1) _ (entering-Stands s 1 a))
        (λ _. silent s s _ (inr (refl, a)))
  step-Carries start d s v (inr (_, a)) small = start-Carries d s v a
  step-Carries (block n first end) d s v (inr (_, a)) small =
      block-Carries d s n first end v a small
  step-Carries (cancel reason) d s v (inr (_, a)) small = cancel-Carries d s reason v a

  -- the events of all the sidecars that the calls leave
  unfoldable pub trace : List Call → D → Session → List Event
  unfolding step
  trace [] d s = []
  trace (call ∷ calls) d s =
      let ((ret, sidecar, s₂), d₂) = step ops call d s in events_of sidecar ++ trace calls d₂ s₂

  trace_ended :
      (calls : List Call) (d : D) (s : Session) → 3 ≤ s.status.state → trace calls d s ≡ []
  unfolding trace
  trace_ended [] d s late = refl
  trace_ended (call ∷ calls) d s late =
      let (same, kept, quiet) = ended-step ops call d s late in
      rw (same, kept, quiet) (trace_ended calls d s late)

  trace_plan :
      (calls : List Call) (r : Request) (p : Position) (d : D) (s : Session)
      → DeviceContract ops
      → r.dwell_count < word64
      → IsValid s
      → Stands p s
      → s.request ≡ r
      → FollowsPlan r p (trace calls d s)
  unfolding trace Carries
  trace_plan calls r p d s c small v (inl late) same = rw (trace_ended calls d s late) tt
  trace_plan [] r p d s c small v (inr at) same = tt
  trace_plan (call ∷ calls) r p d s c small v (inr (at, a)) same =
      let ((ret, sidecar, s₂), d₂) = step ops call d s in
      let (plan, next) = step-Carries call d s v (inr (refl, a)) (rw same small) in
      let v₂ : IsValid s₂ = step-IsValid ops c call d v in
      let kept : s₂.request ≡ r =
        step_keeps ops (λ q _ _. q ≡ r) (λ _ _ _ q. q) (λ _ _ _ q. q) (λ _ _ _ q. q) call d s
          same in
      let rest =
        trace_plan calls r (after (position s) (events_of sidecar)) d₂ s₂ c small v₂ next kept in
      subst (λ q. FollowsPlan r q (events_of sidecar ++ trace calls d₂ s₂)) at
        (plan_append (events_of sidecar) (trace calls d₂ s₂) r (position s)
          (subst (λ q. FollowsPlan q (position s) (events_of sidecar)) same plan) rest)

  -- The events that a session hands out, over any calls on a device that reports a known profile, are the plan of
  -- its request from the start: numbered from 0 up to the planned dwells, with the profiles in turn, each beginning
  -- one dwell after the invalid span of the one before.
  pub trace-FollowsPlan :
      (wire : Wire) (r : Request) (s : Session)
      → init wire r ≡ (0, some s)
      → r.dwell_count < word64
      → DeviceContract ops
      → (calls : List Call) (d : D) → FollowsPlan r (none, 0) (trace calls d s)
  unfolding fresh
  trace-FollowsPlan wire r s e small c calls d =
      let (request_ok, same) = init_request wire r s e in
      let aligned : IsAligned (fresh r) = record {
        numbered = refl;
        begun = λ h. absurd (cc h);
        unbegun = λ _. refl;
        turn = λ h. absurd (cc h);
      } in
      rw same (
        trace_plan calls r (none, 0) d (fresh r) c small (fresh-IsValid r request_ok)
          (inr (refl, aligned)) refl)
