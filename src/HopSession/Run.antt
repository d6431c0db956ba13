-- ===== src/HopSession/Run.antt =====
-- The calls that a client of iiod/spf-hop-session.c makes, in any order, and the status after them.
use libiio.Prelude.{
  ℕ, ◌+◌, ◌-◌, ◌≤◌, inl, inr, ltb, leb, ◌==◌, not, ◌&&◌, ◌||◌, if_elim, subst, sym, eoverflow,
  eilseq, arith, List, [], ◌∷◌, Option, none, length,
}
use libiio.HopProtocol.{Event, Sidecar}
use libiio.HopSession.{Session, Drained, DeviceOps, bits}
use libiio.HopSession.Restore.{terminal, normalize_error, restore, fail}
use libiio.HopSession.Events.{edge_overflows, take_events}
use libiio.HopSession.Ops
use libiio.HopSession.Ops.{
  init, fresh, entering, maybe_complete, finish_block, drained_block, on_block, with_dropped,
  with_block, emitted, discontinuous, no_sidecar,
}
use libiio.HopSession.Inv.{
  IsNamed, IsLive, IsValid, DeviceContract, Closing, completing, Marked, plain, fail-IsValid,
  restore_ends,
}
use libiio.HopSession.Live.{
  IsEnded-late, arm-IsValid, emitted-IsValid, entering-IsLive, entering-IsNamed, leaving, negative,
  open_state, refused, take_events-IsLive, with_block-IsLive, with_dropped-IsLive,
}

-- a call, with the arguments that the client chooses
pub data Call : Type 0 where
  arm start : Call
  block : ℕ → ℕ → ℕ → Call
  cancel : ℕ → Call

unfoldable pub step :
    {D : Type 0} → DeviceOps D → Call → D → Session → (ℕ × Option Sidecar × Session) × D
unfolding Ops.arm Ops.start on_block Ops.cancel
step ops arm d s = (let (ret, s₂) = Ops.arm s in (ret, none, s₂), d)
step ops start d s = no_sidecar (Ops.start ops d s)
step ops (block n first end) d s = on_block ops d s n first end
step ops (cancel reason) d s = no_sidecar (Ops.cancel ops d s reason)

-- the session and the device after the calls
unfoldable pub run : {D : Type 0} → DeviceOps D → List Call → D → Session → Session × D
unfolding step
run ops [] d s = (s, d)
run ops (call ∷ calls) d s = let ((ret, sidecar, s₂), d₂) = step ops call d s in run ops calls d₂ s₂

module _ {D : Type 0} (ops : DeviceOps D) (c : DeviceContract ops) where
  -- a failure that a call reports as it is
  reported :
      (d : D) {s : Session} (reason error : ℕ)
      → IsNamed s.status
      → IsLive s
      → 4 ≤ reason
      → reason ≤ 8
      → 0x80000000 ≤ error
      → IsValid (no_sidecar (fail ops d s reason error)).0.2
  reported d reason error n l low high e = fail-IsValid ops c d reason error n l low high e

  start-IsValid : (d : D) {s : Session} → IsValid s → IsValid (Ops.start ops d s).0.1
  unfolding Ops.start
  start-IsValid d {s} v =
      let (ret, d₂) = ops.submit_plan d s.request in
      if_elim (λ (t : (ℕ × Session) × D). IsValid t.0.1)
        (not (s.status.state == 0) && not (s.status.state == 1)) (λ _. v)
        (λ o.
          let l = IsEnded-late v.phase (ground (arith, o)) in
          if_elim (λ (t : (ℕ × Session) × D). IsValid t.0.1) (not (normalize_error ret == 0))
            (λ z.
              fail-IsValid ops c d₂ 4 (normalize_error ret) (entering-IsNamed s 1 v.named)
                (entering-IsLive s 1 (omega arith) l) (omega arith) (omega arith) (negative ret z))
            (λ _. record {
              named = entering-IsNamed s 2 v.named;
              phase = inl (entering-IsLive s 2 (omega arith) l);
            }))

  -- the restore that ends a session in which nothing went wrong
  ending :
      (d : D) (s : Session) {reason final_state : ℕ} (required : ℕ)
      → IsNamed s.status
      → IsLive s
      → Closing final_state reason s.status.error_code
      → IsValid (restore ops d s reason final_state required).0.1
  ending d s required n l closes =
      let (named, ended) =
        restore_ends ops c d s required n (subst Marked (sym l.quiet) plain) l.unrestored closes in
      record { named = named; phase = inr ended }

  pub maybe_complete-IsValid :
      (d : D) (s : Session) (end : ℕ)
      → IsNamed s.status
      → IsLive s
      → IsValid (maybe_complete ops d s end).0.1
  unfolding maybe_complete
  maybe_complete-IsValid d s end n l =
      let IsGood = λ (t : (ℕ × Session) × D). IsValid t.0.1 in
      let final_counter = s.last_event.invalid_end + s.request.dwell_samples in
      let live : IsValid s = record { named = n; phase = inl l } in
      if_elim IsGood (not s.have_last_event) (λ _. live)
        (λ _.
          if_elim IsGood (edge_overflows s)
            (λ _.
              fail-IsValid ops c d 8 (bits eoverflow) n l (omega arith) (omega arith) (omega arith))
            (λ _.
              if_elim IsGood
                (ltb final_counter s.status.startup_invalid_start
                  || ltb (final_counter - s.status.startup_invalid_start)
                      s.request.capture_span_samples
                  || ltb end final_counter)
                (λ _. live)
                (λ _. ending d s final_counter n l (subst (Closing 3 1) (sym l.error) completing))))

  cancel-IsValid :
      (d : D) {s : Session} (reason : ℕ) → IsValid s → IsValid (Ops.cancel ops d s reason).0.1
  unfolding Ops.cancel
  cancel-IsValid d {s} reason v =
      let IsGood = λ (t : (ℕ × Session) × D). IsValid t.0.1 in
      if_elim IsGood (not (reason == 2) && not (reason == 3)) (λ _. v)
        (λ o.
          if_elim IsGood (terminal s) (λ _. v)
            (λ t.
              let l = IsEnded-late v.phase (open_state s t) in
              ending d s 0 v.named l (subst (Closing 4 reason) (sym l.error) (leaving reason o))))

  -- the events were accepted
  finish_block-IsValid :
      (d : D) (s : Session) (n first end : ℕ) (es : List Event)
      → IsNamed s.status
      → IsLive s
      → IsValid (finish_block ops d s n first end es).0.2
  unfolding finish_block
  finish_block-IsValid d s n first end es named l =
      let (named₂, l₂) = with_block-IsLive s n end named l in
      let ((ret, s₂), d₂) = maybe_complete ops d (with_block s n end) end in
      let v = maybe_complete-IsValid d (with_block s n end) end named₂ l₂ in
      if_elim (λ (t : (ℕ × Option Sidecar × Session) × D). IsValid t.0.2) (ret == 0)
        (λ _. emitted-IsValid s₂ (length es) v) (λ _. v)

  drained_block-IsValid :
      (d : D) (s : Session) (drained : Drained) (n first end : ℕ)
      → IsNamed s.status
      → IsLive s
      → IsValid (drained_block ops d s drained n first end).0.2
  unfolding drained_block
  drained_block-IsValid d s drained n first end named l =
      let IsGood = λ (t : (ℕ × Option Sidecar × Session) × D). IsValid t.0.2 in
      let counted = with_dropped s drained.dropped in
      let (error, s₂, events) = take_events drained.events first counted in
      let (named₁, l₁) = with_dropped-IsLive s drained.dropped named l in
      let (named₂, l₂) = take_events-IsLive drained.events first counted named₁ l₁ in
      if_elim IsGood (not (normalize_error drained.ret == 0))
        (λ z.
          reported d 4 (normalize_error drained.ret) named l (omega arith) (omega arith)
            (negative drained.ret z))
        (λ _.
          if_elim IsGood (ltb 8 (length drained.events))
            (λ _. reported d 8 (bits eoverflow) named l (omega arith) (omega arith) (omega arith))
            (λ _.
              if_elim IsGood (not (drained.dropped == 0))
                (λ _.
                  reported d 5 (bits eoverflow) named₁ l₁ (omega arith) (omega arith) (omega arith))
                (λ _.
                  if_elim IsGood (not (error == 0))
                    (λ z.
                      if_elim (λ reason. IsValid (no_sidecar (fail ops d s₂ reason error)).0.2)
                        (error == bits eilseq)
                        (λ _.
                          reported d 6 error named₂ l₂ (omega arith) (omega arith)
                            (refused drained.events first counted z))
                        (λ _.
                          reported d 8 error named₂ l₂ (omega arith) (omega arith)
                            (refused drained.events first counted z)))
                    (λ _. finish_block-IsValid d s₂ n first end events named₂ l₂))))

  on_block-IsValid :
      (d : D) {s : Session} (n first end : ℕ)
      → IsValid s
      → IsValid (on_block ops d s n first end).0.2
  unfolding on_block
  on_block-IsValid d {s} n first end v =
      let IsGood = λ (t : (ℕ × Option Sidecar × Session) × D). IsValid t.0.2 in
      let (drained, d₂) = ops.drain_events d in
      if_elim IsGood (not (s.status.state == 2) || leb end first) (λ _. v)
        (λ o.
          let l = IsEnded-late v.phase (ground (arith, o)) in
          if_elim IsGood (discontinuous s n first end)
            (λ _. reported d 7 (bits eilseq) v.named l (omega arith) (omega arith) (omega arith))
            (λ _. drained_block-IsValid d₂ s drained n first end v.named l))

  pub step-IsValid :
      (call : Call) (d : D) {s : Session} → IsValid s → IsValid (step ops call d s).0.2
  unfolding step
  step-IsValid arm d v = arm-IsValid v
  step-IsValid start d v = start-IsValid d v
  step-IsValid (block n first end) d v = on_block-IsValid d n first end v
  step-IsValid (cancel reason) d v = cancel-IsValid d reason v

  pub run-IsValid :
      (calls : List Call) (d : D) {s : Session} → IsValid s → IsValid (run ops calls d s).0
  unfolding run
  run-IsValid [] d v = v
  run-IsValid (call ∷ calls) d {s} v =
      run-IsValid calls (step ops call d s).1 (step-IsValid call d v)
