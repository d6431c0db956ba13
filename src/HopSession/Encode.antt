-- ===== src/HopSession/Encode.antt =====
-- What a session of iiod/spf-hop-session.c hands to the encoders of iiod/spf-hop-protocol.c.
use libiio.Prelude.{
  ℕ, ◌≤◌, ◌<◌, ◌≡◌, ◌≢◌, refl, sym, subst, false, ltb, leb, ◌==◌, not, ◌||◌, if_elim, arith, List,
  [], ◌∷◌, length, Option, some, ok, pos,
}
use libiio.HopProtocol.{Request, DeviceEvent, Event, Sidecar, status_bytes}
use libiio.HopProtocol.Wire.{Wire}
use libiio.HopProtocol.RequestWire.{validate_request, geometry_valid}
use libiio.HopProtocol.EventWire.{validate_events, validate_state, record_bytes, encode_sidecar}
use libiio.HopProtocol.StatusWire
use libiio.HopSession.{Session, Drained, DeviceOps}
use libiio.HopSession.Restore.{normalize_error}
use libiio.HopSession.Events.{validate_device_event, spanned, anchored, accept_event, take_events}
use libiio.HopSession.Ops.{
  init, fresh, on_block, drained_block, finish_block, maybe_complete, with_dropped, with_block,
  discontinuous, sidecar_of,
}
use libiio.HopSession.Inv.{
  IsValid, IsNamed, IsLive, DeviceContract, consistent, validate_status_lem,
}
use libiio.HopSession.Live.{
  fresh-IsValid, with_block-IsLive, with_dropped-IsLive, take_events-IsLive, IsEnded-late,
}
use libiio.HopSession.Run.{Call, run, run-IsValid, maybe_complete-IsValid}
use libiio.HopSession.Frame.{run_keeps, maybe_complete_keeps}
use libiio.HopSession.Once.{init_request}
use libiio.HopSession.Sendable.{take_events-valid}

-- After any calls, on a device that reports a known profile, the encoder takes the status of a session that
-- `init` accepted.
pub status-encode :
    {D : Type 0} (ops : DeviceOps D) (wire w : Wire) (r : Request) (s : Session)
    → init wire r ≡ (0, some s)
    → DeviceContract ops
    → (calls : List Call) (d : D)
    → (StatusWire.encode status_bytes (run ops calls d s).0.status w).0 ≡ ok
unfolding StatusWire.encode
status-encode ops wire w r s e c calls d =
    let (request_ok, same) = init_request wire r s e in
    let valid : IsValid s = subst IsValid (sym same) (fresh-IsValid r request_ok) in
    rw (validate_status_lem (run-IsValid ops c calls d valid)) refl

-- a sidecar that the encoder takes
abbrev pub IsEncodable : Sidecar → Type 0
IsEncodable sc =
    (wire_bytes : ℕ) (w : Wire)
    → record_bytes sc ≤ wire_bytes
    → (encode_sidecar wire_bytes sc w).0 ≡ pos (record_bytes sc)

sidecar-IsEncodable :
    (sc : Sidecar)
    → validate_state sc.state sc.terminal_reason sc.error_code sc.flags ≡ ok
    → sc.session_id ≢ 0
    → sc.block_first_sample < sc.block_end_sample
    → validate_events sc.events ≡ ok
    → length sc.events ≤ 8
    → IsEncodable sc
unfolding encode_sidecar
sidecar-IsEncodable sc state id span events few wire_bytes w room =
    let a : ltb 8 (length sc.events) ≡ false = ground arith in
    let b : ltb wire_bytes (record_bytes sc) ≡ false = ground arith in
    let c : (sc.session_id == 0) ≡ false = ground arith in
    let d : leb sc.block_end_sample sc.block_first_sample ≡ false = ground arith in
    rw (state, events, a, b, c, d) refl

-- the sidecar that a call leaves, if any
abbrev Sends : {D : Type 0} → (ℕ × Option Sidecar × Session) × D → Type 0
Sends ((ret, sidecar, s), d) = (sc : Sidecar) → sidecar ≡ some sc → IsEncodable sc

some_path : {a b : Sidecar} → some a ≡ some b → a ≡ b
some_path e = cc e

request_session : (r : Request) → validate_request r ≡ ok → r.session_id ≢ 0
unfolding validate_request geometry_valid
request_session r e = ground (arith, e)

with_block_request : (s : Session) (n end : ℕ) → (with_block s n end).request ≡ s.request
unfolding with_block
with_block_request s n end = refl

with_dropped_request : (s : Session) (n : ℕ) → (with_dropped s n).request ≡ s.request
unfolding with_dropped
with_dropped_request s n = refl

take_events_request :
    (raws : List DeviceEvent) (first : ℕ) (s : Session)
    → (take_events raws first s).1.request ≡ s.request
unfolding take_events accept_event
take_events_request [] first s = refl
take_events_request (raw ∷ raws) first s =
    let d = anchored first raw in
    if_elim (λ (t : ℕ × Session × List Event). t.1.request ≡ s.request)
      (validate_device_event s d == 0)
      (λ _. take_events_request raws first (accept_event s (spanned s d))) (λ _. refl)

pub zero_test : (n : ℕ) → not (n == 0) ≡ false → n ≡ 0
zero_test n z = ground (arith, z)

few_events :
    (raws : List DeviceEvent) (es : List Event)
    → ltb 8 (length raws) ≡ false
    → length es ≡ length raws
    → length es ≤ 8
few_events raws es few count = ground (arith, few, count)

module _ {D : Type 0} (ops : DeviceOps D) (c : DeviceContract ops) where
  finish_block-Sends :
      (d : D) (s : Session) (n first end : ℕ) (es : List Event)
      → IsNamed s.status
      → IsLive s
      → validate_request s.request ≡ ok
      → first < end
      → validate_events es ≡ ok
      → length es ≤ 8
      → Sends (finish_block ops d s n first end es)
  unfolding finish_block
  finish_block-Sends d s n first end es named l r span events few =
      let (named₂, l₂) = with_block-IsLive s n end named l in
      let ((ret, s₂), d₂) = maybe_complete ops d (with_block s n end) end in
      let v : IsValid s₂ = maybe_complete-IsValid ops c d (with_block s n end) end named₂ l₂ in
      let same : s₂.request ≡ s.request =
        maybe_complete_keeps ops (λ q _ _. q ≡ s.request) (λ _ _ _ q. q) (λ _ _ _ q. q)
          (λ _ _ _ q. q) d (with_block s n end) end (with_block_request s n end) in
      let id : s₂.request.session_id ≢ 0 = λ z. request_session s.request r (rw same at z) in
      if_elim Sends (ret == 0)
        (λ _ sc e. subst IsEncodable (some_path e) (
          sidecar-IsEncodable (sidecar_of s₂ n first end es) (consistent v.phase) id span events
            few))
        (λ _ sc e. absurd (cc e))

  drained_block-Sends :
      (d : D) (s : Session) (drained : Drained) (n first end : ℕ)
      → IsNamed s.status
      → IsLive s
      → validate_request s.request ≡ ok
      → first < end
      → Sends (drained_block ops d s drained n first end)
  unfolding drained_block
  drained_block-Sends d s drained n first end named l r span =
      let counted = with_dropped s drained.dropped in
      let (error, s₂, events) = take_events drained.events first counted in
      let (named₁, l₁) = with_dropped-IsLive s drained.dropped named l in
      let (named₂, l₂) = take_events-IsLive drained.events first counted named₁ l₁ in
      let r₁ : validate_request counted.request ≡ ok =
        rw (with_dropped_request s drained.dropped) r in
      let r₂ : validate_request s₂.request ≡ ok =
        rw (take_events_request drained.events first counted) r₁ in
      if_elim Sends (not (normalize_error drained.ret == 0)) (λ _ sc e. absurd (cc e))
        (λ _.
          if_elim Sends (ltb 8 (length drained.events)) (λ _ sc e. absurd (cc e))
            (λ few.
              if_elim Sends (not (drained.dropped == 0)) (λ _ sc e. absurd (cc e))
                (λ _.
                  if_elim Sends (not (error == 0)) (λ _ sc e. absurd (cc e))
                    (λ z.
                      let (valid, count) =
                        take_events-valid drained.events first counted r₁ (zero_test error z) in
                      finish_block-Sends d s₂ n first end events named₂ l₂ r₂ span valid
                        (few_events drained.events events few count)))))

  on_block-Sends :
      (d : D) (s : Session) (n first end : ℕ)
      → IsValid s
      → validate_request s.request ≡ ok
      → Sends (on_block ops d s n first end)
  unfolding on_block
  on_block-Sends d s n first end v r =
      let (drained, d₂) = ops.drain_events d in
      if_elim Sends (not (s.status.state == 2) || leb end first) (λ _ sc e. absurd (cc e))
        (λ o.
          if_elim Sends (discontinuous s n first end) (λ _ sc e. absurd (cc e))
            (λ _.
              drained_block-Sends d₂ s drained n first end v.named
                (IsEnded-late v.phase (ground (arith, o))) r (ground (arith, o))))

  -- After any calls, on a device that reports a known profile, the encoder takes the sidecar that a block leaves,
  -- if there is room for its bytes.
  pub encode-sidecar :
      (wire : Wire) (r : Request) (s : Session)
      → init wire r ≡ (0, some s)
      → (calls : List Call) (d : D) (n first end : ℕ) → (sc : Sidecar)
      → let (s₂, d₂) = run ops calls d s in
        (on_block ops d₂ s₂ n first end).0.1 ≡ some sc
        → (wire_bytes : ℕ) (w : Wire) → record_bytes sc ≤ wire_bytes
        → (encode_sidecar wire_bytes sc w).0 ≡ pos (record_bytes sc)
  unfolding fresh
  encode-sidecar wire r s e calls d n first end =
      let (request_ok, same) = init_request wire r s e in
      let valid : IsValid s = subst IsValid (sym same) (fresh-IsValid r request_ok) in
      let (s₂, d₂) = run ops calls d s in
      let kept : s₂.request ≡ r =
        run_keeps ops (λ q _ _. q ≡ r) (λ _ _ _ q. q) (λ _ _ _ q. q) (λ _ _ _ q. q) calls d s
          (rw same refl) in
      on_block-Sends d₂ s₂ n first end (run-IsValid ops c calls d valid) (rw kept request_ok)
