-- ===== src/HopSession/Once.antt =====
-- The device under a session of iiod/spf-hop-session.c is restored once, and left alone after that.
use libiio.Prelude.{
  ℕ, suc, ◌+◌, ◌≤◌, ◌<◌, ◌≡◌, ◌⊎◌, inl, inr, refl, sym, subst, true, false, leb, ◌==◌, not, ◌&&◌,
  ◌||◌, if◌then◌else◌, if_elim, arith, List, [], ◌∷◌, none, some, ok, is_zero, ℤ, pos, negsuc, zero,
}
use libiio.HopProtocol.{Request}
use libiio.HopProtocol.Wire.{Wire}
use libiio.HopProtocol.RequestWire
use libiio.HopProtocol.RequestWire.{validate_request}
use libiio.HopSession.{Session, DeviceOps}
use libiio.HopSession.Restore.{terminal}
use libiio.HopSession.Ops
use libiio.HopSession.Ops.{init, opened, fresh, on_block}
use libiio.HopSession.Inv.{IsValid, DeviceContract}
use libiio.HopSession.Live.{fresh-IsValid}
use libiio.HopSession.Run.{Call, arm, start, block, cancel, step, run, run-IsValid}
use libiio.HopSession.Frame.{run_keeps}

-- a device that counts how often it is restored
abbrev pub counted : {D : Type 0} → DeviceOps D → DeviceOps (ℕ × D)
counted ops = record {
  submit_plan = λ (k, d) r. let (ret, d₂) = ops.submit_plan d r in (ret, (k, d₂));
  drain_events = λ (k, d). let (drained, d₂) = ops.drain_events d in (drained, (k, d₂));
  cancel_restore =
      λ (k, d) reason. let (answer, d₂) = ops.cancel_restore d reason in (answer, (k + 1, d₂));
}

zero_ok : (e : ℤ) → is_zero e ≡ true → e ≡ ok
zero_ok (pos zero) h = refl
zero_ok (pos (suc n)) h = cc h
zero_ok (negsuc n) h = cc h

encode_ret : (wire : Wire) (r : Request) → (RequestWire.encode 288 r wire).0 ≡ validate_request r
unfolding RequestWire.encode
encode_ret wire r =
    if_elim (λ (t : ℤ × Wire). t.0 ≡ validate_request r) (not (is_zero (validate_request r)))
      (λ _. refl) (λ z. sym (zero_ok (validate_request r) (ground (arith, z))))

init_split :
    (ret : ℤ) (r : Request) (s : Session) → opened ret r ≡ (0, some s) → (ret ≡ ok) × (s ≡ fresh r)
unfolding opened
init_split (pos zero) r s e = (refl, cc e)
init_split (pos (suc n)) r s e = absurd (cc e)
init_split (negsuc n) r s e = absurd (cc e)

-- A session begins with a request that the encoder validates.
pub init_request :
    (wire : Wire) (r : Request) (s : Session)
    → init wire r ≡ (0, some s)
    → (validate_request r ≡ ok) × (s ≡ fresh r)
unfolding init
init_request wire r s e =
    subst (λ ret. (ret ≡ ok) × (s ≡ fresh r)) (encode_ret wire r)
      (init_split ((RequestWire.encode 288 r wire).0) r s e)

module _ {D : Type 0} (ops : DeviceOps D) where
  -- Every call after the end leaves the session and the device as they are.
  pub ended-step :
      (call : Call) (d : D) (s : Session)
      → 3 ≤ s.status.state
      → let ((ret, sidecar, s₂), d₂) = step ops call d s in (s₂ ≡ s) × (d₂ ≡ d) × (sidecar ≡ none)
  unfolding step Ops.arm Ops.start on_block Ops.cancel terminal
  ended-step arm d s h =
      let t : (s.status.state == 0) ≡ false = ground arith in rw t (refl, refl, refl)
  ended-step start d s h =
      let t : (not (s.status.state == 0) && not (s.status.state == 1)) ≡ true = ground arith in
      rw t (refl, refl, refl)
  ended-step (block n first end) d s h =
      let t : (not (s.status.state == 2) || leb end first) ≡ true = ground arith in
      rw t (refl, refl, refl)
  ended-step (cancel reason) d s h =
      let t : leb 3 s.status.state ≡ true = ground arith in
      if_elim
        (λ (r : (ℕ × Session) × D).
          let after = Ops.no_sidecar r in (after.0.2 ≡ s) × (after.1 ≡ d) × (after.0.1 ≡ none))
        (not (reason == 2) && not (reason == 3)) (λ _. (refl, refl, refl))
        (λ _. rw t (refl, refl, refl))

  ended_run :
      (calls : List Call) (d : D) (s : Session) → 3 ≤ s.status.state → run ops calls d s ≡ (s, d)
  unfolding run
  ended_run [] d s h = refl
  ended_run (call ∷ calls) d s h =
      let (same, still, _) = ended-step call d s h in rw (same, still) (ended_run calls d s h)

  -- A session that `init` accepted is live and its device never restored, or it has ended and its device was
  -- restored exactly once, after any calls on a device that reports a known profile.
  pub restored_once :
      (wire : Wire) (r : Request) (s : Session)
      → init wire r ≡ (0, some s)
      → DeviceContract ops
      → (calls : List Call) (d : D)
      → let (s₂, kd) = run (counted ops) calls (0, d) s in
        (s₂.status.state < 3) × (kd.0 ≡ 0) ⊎ (3 ≤ s₂.status.state) × (kd.0 ≡ 1)
  unfolding fresh
  restored_once wire r s e c calls d =
      let (request_ok, same) = init_request wire r s e in
      let valid : IsValid s = subst IsValid (sym same) (fresh-IsValid r request_ok) in
      let (s₂, kd) = run (counted ops) calls (0, d) s in
      let v : IsValid s₂ =
        run-IsValid (counted ops) (λ (k, x) reason. c x reason) calls (0, d) valid in
      let count : kd.0 ≡ (if s₂.restore_called then 1 else 0) =
        run_keeps (counted ops) (λ r b (t : ℕ × D). t.0 ≡ (if b then 1 else 0)) (λ r b d q. q)
          (λ r b d q. q) (λ r d reason q. omega (arith, q)) calls (0, d) s (rw same refl) in
      elim v.phase [
        | inl l ↦ inl (l.early, rw l.unrestored at count)
        | inr x ↦ inr (x.late, rw x.restored at count)
      ]
