-- ===== src/HopSession/Covered.antt =====
-- What the state COMPLETED of a session of iiod/spf-hop-session.c promises.
use libiio.Prelude.{
  ℕ, ◌+◌, ◌-◌, ◌≤◌, ◌<◌, ◌≡◌, ◌≢◌, refl, false, ltb, leb, ◌==◌, not, ◌&&◌, ◌||◌, if◌then◌else◌,
  if_elim, arith, List, [], ◌∷◌, length, Option, some, eilseq, eoverflow,
}
use libiio.HopProtocol.{Request, Event, Sidecar, Status}
use libiio.HopProtocol.Wire.{Wire}
use libiio.HopSession.{Session, Receipt, Drained, DeviceOps, bits}
use libiio.HopSession.Restore.{
  terminal, normalize_error, anchored_receipt, restore_verdict, restored_status, restore, marked,
  failed_as, fail,
}
use libiio.HopSession.Events.{edge_overflows, take_events}
use libiio.HopSession.Ops
use libiio.HopSession.Ops.{
  init, fresh, entering, emitted, on_block, drained_block, finish_block, maybe_complete,
  with_dropped, with_block, discontinuous, sidecar_of, no_sidecar,
}
use libiio.HopSession.Inv.{IsValid, IsNamed, IsLive, DeviceContract}
use libiio.HopSession.Live.{
  IsEnded-late, open_state, fresh-IsValid, take_events-IsLive, with_dropped-IsLive,
  with_block-IsLive, entering-IsLive,
}
use libiio.HopSession.Run.{Call, arm, start, block, cancel, step, run, step-IsValid}
use libiio.HopSession.Once.{init_request}

-- the capture ends with the last visit, spans what the request asks for, is over when the last block ends, and
-- before the device is restored
pub record IsCovered (s : Session) : Type 0 where
  pub ends : s.status.final_counter ≡ s.last_event.invalid_end + s.request.dwell_samples
  pub spans :
      s.status.startup_invalid_start + s.request.capture_span_samples ≤ s.status.final_counter
  pub reached : s.status.final_counter ≤ s.status.last_block_end
  pub before_restore : s.status.final_counter ≤ s.status.restore_before

-- what a session that is not complete need not promise
IsHonest : Session → Type 0
IsHonest s = s.status.state ≡ 3 → IsCovered s

open-IsHonest : (s : Session) → s.status.state ≢ 3 → IsHonest s
unfolding IsHonest
open-IsHonest s h e = absurd (h e)

live-IsHonest : (s : Session) → IsLive s → IsHonest s
live-IsHonest s l = open-IsHonest s (λ e. omega (arith, l.early))

emitted-IsHonest : (s : Session) (n : ℕ) → IsHonest s → IsHonest (emitted s n)
unfolding IsHonest emitted
emitted-IsHonest s n h e =
    (let c = h e in
      record {
        ends = c.ends;
        spans = c.spans;
        reached = c.reached;
        before_restore = c.before_restore;
      })

verdict_before :
    (ret : ℕ) (r : Receipt) (required : ℕ)
    → restore_verdict ret r 1 required ≡ 0
    → required ≤ r.transition_before
unfolding restore_verdict normalize_error
verdict_before ret r required e = ground (arith, e)

abbrev state_for : ℕ → ℕ
state_for error = if error == 0 then 3 else 5

chosen : (error : ℕ) → state_for error ≡ 3 → error ≡ 0
chosen error e = ground (arith, e)

with_block_end : (s : Session) (n end : ℕ) → (with_block s n end).status.last_block_end ≡ end
unfolding with_block
with_block_end s n end = refl

fresh-IsHonest : (r : Request) → IsHonest (fresh r)
unfolding fresh
fresh-IsHonest r = open-IsHonest _ (λ e. omega (arith, e))

module _ {D : Type 0} (ops : DeviceOps D) where
  restore_state :
      (d : D) (s : Session) (reason final_state required : ℕ)
      → s.restore_called ≡ false
      → 3 < final_state
      → (restore ops d s reason final_state required).0.1.status.state ≢ 3
  unfolding restore restored_status
  restore_state d s reason final_state required u late = rw u (λ e. ground arith)

  fail-IsHonest :
      (d : D) (s : Session) (reason error : ℕ) → IsLive s → IsHonest (fail ops d s reason error).0.1
  unfolding fail marked failed_as
  fail-IsHonest d s reason error l =
      let other = restore_state d (marked s reason error) reason 5 0 l.unrestored (omega arith) in
      let Q : (ℕ × Session) × D → Type 0 = λ t. IsHonest t.0.1 in
      if_elim Q (terminal s) (λ _. live-IsHonest s l)
        (λ _. open-IsHonest _ (
          if_elim (λ (st : Status). st.state ≢ 3)
            ((restore ops d (marked s reason error) reason 5 0).0.0 == 0) (λ _ e. omega (arith, e))
            (λ _. other)))

  restore-IsCovered :
      (d : D) (s : Session) (final_counter : ℕ)
      → s.restore_called ≡ false
      → final_counter ≡ s.last_event.invalid_end + s.request.dwell_samples
      → s.status.startup_invalid_start + s.request.capture_span_samples ≤ final_counter
      → final_counter ≤ s.status.last_block_end
      → IsHonest (restore ops d s 1 3 final_counter).0.1
  unfolding IsHonest restore restored_status
  restore-IsCovered d s final_counter u ends spans reached =
      let (ret, receipt) = (ops.cancel_restore d 1).0 in
      let anchored = anchored_receipt s final_counter receipt in
      rw u (λ e. record {
        ends = ends;
        spans = spans;
        reached = reached;
        before_restore =
            verdict_before (normalize_error ret) anchored final_counter
              (chosen (restore_verdict (normalize_error ret) anchored 1 final_counter) e);
      })

  maybe_complete-IsHonest :
      (d : D) (s : Session) (end : ℕ)
      → IsLive s
      → s.status.last_block_end ≡ end
      → IsHonest (maybe_complete ops d s end).0.1
  unfolding maybe_complete
  maybe_complete-IsHonest d s end l at =
      let Q : (ℕ × Session) × D → Type 0 = λ t. IsHonest t.0.1 in
      let final_counter = s.last_event.invalid_end + s.request.dwell_samples in
      if_elim Q (not s.have_last_event) (λ _. live-IsHonest s l)
        (λ _.
          if_elim Q (edge_overflows s) (λ _. fail-IsHonest d s 8 (bits eoverflow) l)
            (λ _.
              if_elim Q
                (ltb final_counter s.status.startup_invalid_start
                  || ltb (final_counter - s.status.startup_invalid_start)
                      s.request.capture_span_samples
                  || ltb end final_counter)
                (λ _. live-IsHonest s l)
                (λ no.
                  restore-IsCovered d s final_counter l.unrestored refl (ground (arith, no))
                    (ground (arith, no, at)))))

  finish_block-IsHonest :
      (d : D) (s : Session) (n first end : ℕ) (es : List Event)
      → IsNamed s.status
      → IsLive s
      → IsHonest (finish_block ops d s n first end es).0.2
  unfolding finish_block
  finish_block-IsHonest d s n first end es named l =
      let Q : (ℕ × Option Sidecar × Session) × D → Type 0 = λ t. IsHonest t.0.2 in
      let ((ret, s₂), d₂) = maybe_complete ops d (with_block s n end) end in
      let h =
        maybe_complete-IsHonest d (with_block s n end) end (with_block-IsLive s n end named l).1
          (with_block_end s n end) in
      if_elim Q (ret == 0) (λ _. emitted-IsHonest s₂ (length es) h) (λ _. h)

  failing-IsHonest :
      (d : D) (s : Session) (reason error : ℕ)
      → IsLive s
      → IsHonest (no_sidecar (fail ops d s reason error)).0.2
  failing-IsHonest d s reason error l = fail-IsHonest d s reason error l

  drained_block-IsHonest :
      (d : D) (s : Session) (drained : Drained) (n first end : ℕ)
      → IsNamed s.status
      → IsLive s
      → IsHonest (drained_block ops d s drained n first end).0.2
  unfolding drained_block
  drained_block-IsHonest d s drained n first end named l =
      let Q : (ℕ × Option Sidecar × Session) × D → Type 0 = λ t. IsHonest t.0.2 in
      let counted = with_dropped s drained.dropped in
      let (error, s₂, events) = take_events drained.events first counted in
      let (named₁, l₁) = with_dropped-IsLive s drained.dropped named l in
      let (named₂, l₂) = take_events-IsLive drained.events first counted named₁ l₁ in
      if_elim Q (not (normalize_error drained.ret == 0))
        (λ _. failing-IsHonest d s 4 (normalize_error drained.ret) l)
        (λ _.
          if_elim Q (ltb 8 (length drained.events)) (λ _. failing-IsHonest d s 8 (bits eoverflow) l)
            (λ _.
              if_elim Q (not (drained.dropped == 0))
                (λ _. failing-IsHonest d counted 5 (bits eoverflow) l₁)
                (λ _.
                  if_elim Q (not (error == 0)) (λ _. failing-IsHonest d s₂ _ error l₂)
                    (λ _. finish_block-IsHonest d s₂ n first end events named₂ l₂))))

  on_block-IsHonest :
      (d : D) (s : Session) (n first end : ℕ)
      → IsValid s
      → IsHonest s
      → IsHonest (on_block ops d s n first end).0.2
  unfolding on_block
  on_block-IsHonest d s n first end v h =
      let Q : (ℕ × Option Sidecar × Session) × D → Type 0 = λ t. IsHonest t.0.2 in
      let (drained, d₂) = ops.drain_events d in
      if_elim Q (not (s.status.state == 2) || leb end first) (λ _. h)
        (λ o.
          let l = IsEnded-late v.phase (ground (arith, o)) in
          if_elim Q (discontinuous s n first end) (λ _. failing-IsHonest d s 7 (bits eilseq) l)
            (λ _. drained_block-IsHonest d₂ s drained n first end v.named l))

  start-IsHonest : (d : D) (s : Session) → IsValid s → IsHonest s → IsHonest (Ops.start ops d s).0.1
  unfolding Ops.start
  start-IsHonest d s v h =
      let Q : (ℕ × Session) × D → Type 0 = λ t. IsHonest t.0.1 in
      let (ret, d₂) = ops.submit_plan d s.request in
      if_elim Q (not (s.status.state == 0) && not (s.status.state == 1)) (λ _. h)
        (λ o.
          let l = IsEnded-late v.phase (ground (arith, o)) in
          if_elim Q (not (normalize_error ret == 0))
            (λ _.
              fail-IsHonest d₂ (entering s 1) 4 (normalize_error ret)
                (entering-IsLive s 1 (omega arith) l))
            (λ _. live-IsHonest (entering s 2) (entering-IsLive s 2 (omega arith) l)))

  cancel-IsHonest :
      (d : D) (s : Session) (reason : ℕ)
      → IsValid s
      → IsHonest s
      → IsHonest (Ops.cancel ops d s reason).0.1
  unfolding Ops.cancel
  cancel-IsHonest d s reason v h =
      let Q : (ℕ × Session) × D → Type 0 = λ t. IsHonest t.0.1 in
      if_elim Q (not (reason == 2) && not (reason == 3)) (λ _. h)
        (λ _.
          if_elim Q (terminal s) (λ _. h)
            (λ t. open-IsHonest _ (
              restore_state d s reason 4 0 (IsEnded-late v.phase (open_state s t)).unrestored
                (omega arith))))

  step-IsHonest :
      (call : Call) (d : D) (s : Session)
      → IsValid s
      → IsHonest s
      → IsHonest (step ops call d s).0.2
  unfolding step Ops.arm
  step-IsHonest arm d s v h =
      let Q : ℕ × Session → Type 0 = λ t. IsHonest t.1 in
      if_elim Q (s.status.state == 0)
        (λ z.
          live-IsHonest (entering s 1)
            (entering-IsLive s 1 (omega arith) (IsEnded-late v.phase (ground (arith, z)))))
        (λ _. h)
  step-IsHonest start d s v h = start-IsHonest d s v h
  step-IsHonest (block n first end) d s v h = on_block-IsHonest d s n first end v h
  step-IsHonest (cancel reason) d s v h = cancel-IsHonest d s reason v h

  run-IsHonest :
      (calls : List Call) (d : D) (s : Session)
      → DeviceContract ops
      → IsValid s
      → IsHonest s
      → IsHonest (run ops calls d s).0
  unfolding run
  run-IsHonest [] d s c v h = h
  run-IsHonest (call ∷ calls) d s c v h =
      let ((ret, sidecar, s₂), d₂) = step ops call d s in
      run-IsHonest calls d₂ s₂ c (step-IsValid ops c call d v) (step-IsHonest call d s v h)

  -- After any calls on a device that reports a known profile, the capture of a session that has completed ends with
  -- its last visit, spans what its request asks for, and lies before the end of the last block; the device was
  -- restored after it. At 15 and 20 Msps blocks inside the capture may have been missing.
  pub completed-IsCovered :
      (wire : Wire) (r : Request) (s : Session)
      → init wire r ≡ (0, some s)
      → DeviceContract ops
      → (calls : List Call) (d : D) → (run ops calls d s).0.status.state ≡ 3
      → IsCovered (run ops calls d s).0
  unfolding IsHonest
  completed-IsCovered wire r s e c calls d =
      let (request_ok, same) = init_request wire r s e in
      rw same (run-IsHonest calls d (fresh r) c (fresh-IsValid r request_ok) (fresh-IsHonest r))
