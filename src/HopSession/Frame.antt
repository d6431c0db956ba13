-- ===== src/HopSession/Frame.antt =====
-- What the calls of iiod/spf-hop-session.c do to the device: a fact about the request, the device and
-- whether it was restored that each operation of the device keeps is kept by every call.
use libiio.Prelude.{
  ℕ, ◌+◌, ◌-◌, Bool, true, false, ltb, leb, ◌==◌, not, ◌&&◌, ◌||◌, if_elim, subst, List, [], ◌∷◌,
  Option, length, eoverflow, eilseq,
}
use libiio.HopProtocol.{DeviceEvent, Event, Request, Sidecar}
use libiio.HopSession.{Session, Drained, DeviceOps, bits}
use libiio.HopSession.Restore.{terminal, normalize_error, restore, marked, failed_as, fail}
use libiio.HopSession.Events.{
  edge_overflows, take_events, accept_event, validate_device_event, spanned, anchored,
}
use libiio.HopSession.Ops
use libiio.HopSession.Ops.{
  entering, maybe_complete, finish_block, drained_block, on_block, with_dropped, with_block,
  emitted, discontinuous, no_sidecar,
}
use libiio.HopSession.Run.{Call, arm, start, block, cancel, step, run}

module _ {D : Type 0} (ops : DeviceOps D) (Q : Request → Bool → D → Type 0)
    (submits : (r : Request) (b : Bool) (d : D) → Q r b d → Q r b (ops.submit_plan d r).1)
    (drains : (r : Request) (b : Bool) (d : D) → Q r b d → Q r b (ops.drain_events d).1)
    (restores : (r : Request) (d : D) (reason : ℕ)
      → Q r false d
      → Q r true (ops.cancel_restore d reason).1) where
  abbrev pub Holds : Session → D → Type 0
  Holds s d = Q s.request s.restore_called d

  abbrev pub Kept : (ℕ × Session) × D → Type 0
  Kept ((ret, s), d) = Holds s d

  abbrev pub BlockKept : (ℕ × Option Sidecar × Session) × D → Type 0
  BlockKept ((ret, sidecar, s), d) = Holds s d

  restore_keeps :
      (d : D) (s : Session) (reason final_state required : ℕ)
      → Holds s d
      → Kept (restore ops d s reason final_state required)
  unfolding restore
  restore_keeps d s reason final_state required q =
      if_elim Kept s.restore_called (λ _. q)
        (λ o. restores s.request d reason (subst (λ b. Q s.request b d) o q))

  fail_keeps :
      (d : D) (s : Session) (reason error : ℕ) → Holds s d → Kept (fail ops d s reason error)
  unfolding fail marked failed_as
  fail_keeps d s reason error q =
      if_elim Kept (terminal s) (λ _. q) (λ _. restore_keeps d (marked s reason error) reason 5 0 q)

  start_keeps : (d : D) (s : Session) → Holds s d → Kept (Ops.start ops d s)
  unfolding Ops.start entering
  start_keeps d s q =
      let (ret, d₂) = ops.submit_plan d s.request in
      let q₂ = submits s.request s.restore_called d q in
      if_elim Kept (not (s.status.state == 0) && not (s.status.state == 1)) (λ _. q)
        (λ _.
          if_elim Kept (not (normalize_error ret == 0))
            (λ _. fail_keeps d₂ (entering s 1) 4 (normalize_error ret) q₂) (λ _. q₂))

  cancel_keeps : (d : D) (s : Session) (reason : ℕ) → Holds s d → Kept (Ops.cancel ops d s reason)
  unfolding Ops.cancel
  cancel_keeps d s reason q =
      if_elim Kept (not (reason == 2) && not (reason == 3)) (λ _. q)
        (λ _. if_elim Kept (terminal s) (λ _. q) (λ _. restore_keeps d s reason 4 0 q))

  pub maybe_complete_keeps :
      (d : D) (s : Session) (end : ℕ) → Holds s d → Kept (maybe_complete ops d s end)
  unfolding maybe_complete
  maybe_complete_keeps d s end q =
      let final_counter = s.last_event.invalid_end + s.request.dwell_samples in
      if_elim Kept (not s.have_last_event) (λ _. q)
        (λ _.
          if_elim Kept (edge_overflows s) (λ _. fail_keeps d s 8 (bits eoverflow) q)
            (λ _.
              if_elim Kept
                (ltb final_counter s.status.startup_invalid_start
                  || ltb (final_counter - s.status.startup_invalid_start)
                      s.request.capture_span_samples
                  || ltb end final_counter)
                (λ _. q) (λ _. restore_keeps d s 1 3 final_counter q)))

  take_events_keeps :
      (raws : List DeviceEvent) (first : ℕ) (d : D) (s : Session)
      → Holds s d
      → Holds (take_events raws first s).1 d
  unfolding take_events accept_event
  take_events_keeps [] first d s q = q
  take_events_keeps (raw ∷ raws) first d s q =
      let e = anchored first raw in
      if_elim (λ (t : ℕ × Session × List Event). Holds t.1 d) (validate_device_event s e == 0)
        (λ _. take_events_keeps raws first d (accept_event s (spanned s e)) q) (λ _. q)

  finish_block_keeps :
      (d : D) (s : Session) (n first end : ℕ) (es : List Event)
      → Holds s d
      → BlockKept (finish_block ops d s n first end es)
  unfolding finish_block with_block emitted
  finish_block_keeps d s n first end es q =
      let kept = maybe_complete_keeps d (with_block s n end) end q in
      if_elim BlockKept ((maybe_complete ops d (with_block s n end) end).0.0 == 0) (λ _. kept)
        (λ _. kept)

  drained_block_keeps :
      (d : D) (s : Session) (drained : Drained) (n first end : ℕ)
      → Holds s d
      → BlockKept (drained_block ops d s drained n first end)
  unfolding drained_block with_dropped
  drained_block_keeps d s drained n first end q =
      let counted = with_dropped s drained.dropped in
      let (error, s₂, events) = take_events drained.events first counted in
      let q₂ = take_events_keeps drained.events first d counted q in
      if_elim BlockKept (not (normalize_error drained.ret == 0))
        (λ _. fail_keeps d s 4 (normalize_error drained.ret) q)
        (λ _.
          if_elim BlockKept (ltb 8 (length drained.events))
            (λ _. fail_keeps d s 8 (bits eoverflow) q)
            (λ _.
              if_elim BlockKept (not (drained.dropped == 0))
                (λ _. fail_keeps d counted 5 (bits eoverflow) q)
                (λ _.
                  if_elim BlockKept (not (error == 0)) (λ _. fail_keeps d s₂ _ error q₂)
                    (λ _. finish_block_keeps d s₂ n first end events q₂))))

  on_block_keeps :
      (d : D) (s : Session) (n first end : ℕ) → Holds s d → BlockKept (on_block ops d s n first end)
  unfolding on_block
  on_block_keeps d s n first end q =
      let (drained, d₂) = ops.drain_events d in
      if_elim BlockKept (not (s.status.state == 2) || leb end first) (λ _. q)
        (λ _.
          if_elim BlockKept (discontinuous s n first end) (λ _. fail_keeps d s 7 (bits eilseq) q)
            (λ _.
              drained_block_keeps d₂ s drained n first end (drains s.request s.restore_called d q)))

  pub step_keeps : (call : Call) (d : D) (s : Session) → Holds s d → BlockKept (step ops call d s)
  unfolding step Ops.arm entering
  step_keeps arm d s q =
      if_elim (λ (t : ℕ × Session). Holds t.1 d) (s.status.state == 0) (λ _. q) (λ _. q)
  step_keeps start d s q = start_keeps d s q
  step_keeps (block n first end) d s q = on_block_keeps d s n first end q
  step_keeps (cancel reason) d s q = cancel_keeps d s reason q

  pub run_keeps :
      (calls : List Call) (d : D) (s : Session)
      → Holds s d
      → let (s₂, d₂) = run ops calls d s in Holds s₂ d₂
  unfolding run
  run_keeps [] d s q = q
  run_keeps (call ∷ calls) d s q =
      let ((ret, sidecar, s₂), d₂) = step ops call d s in
      run_keeps calls d₂ s₂ (step_keeps call d s q)
