-- ===== src/HopSession/Inv.antt =====
-- What the status of a session of iiod/spf-hop-session.c always satisfies.
use Prim.Native.Nat.{bit_or}
use libiio.Prelude.{
  ℕ, ◌≤◌, ◌<◌, ◌≡◌, ◌≢◌, ◌⊎◌, inl, inr, refl, true, false, leb, ◌==◌, ◌||◌, if_elim, Bool-cases,
  subst, sym, ◌∙◌, arith, ok,
}
use libiio.HopProtocol.{Status}
use libiio.HopProtocol.EventWire.{validate_state, state_malformed, reason_mismatch}
use libiio.HopProtocol.StatusWire.{validate_status}
use libiio.HopSession.{Session, Receipt, DeviceOps}
use libiio.HopSession.Restore.{
  terminal, normalize_error, anchored_receipt, restore_verdict, restored_status, restore, marked,
  failed_as, fail,
}

-- 0 or a negative int
abbrev pub IsErrno : ℕ → Type 0
IsErrno e = (e ≡ 0) ⊎ (0x80000000 ≤ e)

pub normalize_error-IsErrno : (e : ℕ) → IsErrno (normalize_error e)
unfolding normalize_error
normalize_error-IsErrno e = ground arith

restore_verdict-IsErrno :
    (ret : ℕ) (r : Receipt) (reason required : ℕ)
    → IsErrno ret
    → IsErrno (restore_verdict ret r reason required)
unfolding restore_verdict normalize_error
restore_verdict-IsErrno ret r reason required e = ground arith

-- how a session may end, with the error that stands in its status
pub data Closing : ℕ → ℕ → ℕ → Type 0 where
  completing : Closing 3 1 0
  closing : Closing 4 2 0
  disconnecting : Closing 4 3 0
  failing :
      {reason error : ℕ} → 4 ≤ reason → reason ≤ 8 → 0x80000000 ≤ error → Closing 5 reason error

pub data Marked : ℕ → Type 0 where
  plain : Marked 32
  overflown : Marked 34
  broken : Marked 36

good_end :
    {f state reason error : ℕ}
    → Marked f
    → Closing state reason error
    → validate_state state reason error (bit_or (bit_or (bit_or f 8) 16) 1) ≡ ok
unfolding validate_state state_malformed reason_mismatch
good_end plain completing = refl
good_end plain closing = refl
good_end plain disconnecting = refl
good_end plain (failing a b c) = ground arith
good_end overflown completing = refl
good_end overflown closing = refl
good_end overflown disconnecting = refl
good_end overflown (failing a b c) = ground arith
good_end broken completing = refl
good_end broken closing = refl
good_end broken disconnecting = refl
good_end broken (failing a b c) = ground arith

bad_end :
    {f error : ℕ}
    → Marked f
    → 0x80000000 ≤ error
    → validate_state 5 9 error (bit_or (bit_or f 8) 1) ≡ ok
unfolding validate_state state_malformed reason_mismatch
bad_end plain c = ground arith
bad_end overflown c = ground arith
bad_end broken c = ground arith

-- a profile that the status may show
abbrev pub IsShown : ℕ → Type 0
IsShown profile = (profile ≡ 255) ⊎ (profile < 8)

-- the fields that do not depend on the state
pub record IsNamed (st : Status) : Type 0 where
  pub session : st.session_id ≢ 0
  pub planned : st.planned_dwells ≢ 0
  pub active : IsShown st.active_profile
  pub restored : IsShown st.restored_profile

-- before the end nothing has gone wrong, and the device has not been restored
pub record IsLive (s : Session) : Type 0 where
  pub early : s.status.state < 3
  pub quiet : s.status.flags ≡ 32
  pub unrestored : s.restore_called ≡ false
  pub reason : s.status.terminal_reason ≡ 0
  pub error : s.status.error_code ≡ 0

pub record IsEnded (s : Session) : Type 0 where
  pub late : 3 ≤ s.status.state
  pub restored : s.restore_called ≡ true
  pub consistent :
      validate_state s.status.state s.status.terminal_reason s.status.error_code s.status.flags ≡ ok

pub record IsValid (s : Session) : Type 0 where
  pub named : IsNamed s.status
  pub phase : IsLive s ⊎ IsEnded s

live_state : (state : ℕ) → state < 3 → validate_state state 0 0 32 ≡ ok
unfolding validate_state state_malformed reason_mismatch
live_state state h = ground arith

pub consistent :
    {s : Session}
    → IsLive s ⊎ IsEnded s
    → validate_state s.status.state s.status.terminal_reason s.status.error_code s.status.flags ≡ ok
consistent (inl l) = rw (l.reason, l.error, l.quiet) (live_state _ l.early)
consistent (inr e) = e.consistent

-- The status of a valid session is one that its encoder takes.
pub validate_status_lem : {s : Session} → IsValid s → validate_status s.status ≡ ok
unfolding validate_status
validate_status_lem {s} v = rw (consistent v.phase) (ground (arith, v.named))

-- the profile that a device says it restored
abbrev pub DeviceContract : {D : Type 0} → DeviceOps D → Type 0
DeviceContract {D} ops =
    (d : D) (reason : ℕ) → IsShown (ops.cancel_restore d reason).0.1.restored_profile

Closing-late : {state reason error : ℕ} → Closing state reason error → 3 ≤ state
Closing-late completing = omega arith
Closing-late closing = omega arith
Closing-late disconnecting = omega arith
Closing-late (failing a b c) = omega arith

restored_status_lem :
    (st : Status) (r : Receipt) {reason final_state error : ℕ} (required : ℕ)
    → IsErrno error
    → Marked st.flags
    → Closing final_state reason st.error_code
    → let after = restored_status st r error reason final_state required in
      (3 ≤ after.state)
      × (validate_state after.state after.terminal_reason after.error_code after.flags ≡ ok)
unfolding restored_status
restored_status_lem st r required (inl z) m closes = rw z (Closing-late closes, good_end m closes)
restored_status_lem st r {error = error} required (inr h) m closes =
    let e : (error == 0) ≡ false = ground arith in rw e (ground arith, bad_end m h)

anchored_profile :
    (s : Session) (required : ℕ) (r : Receipt)
    → r.restored_profile ≡ (anchored_receipt s required r).restored_profile
unfolding anchored_receipt
anchored_profile s required r = ground arith

marked_flags :
    (s : Session) (reason error : ℕ)
    → s.status.flags ≡ 32
    → Marked (marked s reason error).status.flags
unfolding marked
marked_flags s reason error quiet = rw quiet (
    if_elim Marked (reason == 6 || reason == 7)
      (λ o. let e : (reason == 5) ≡ false = ground (arith, o) in rw e broken)
      (λ _. if_elim Marked (reason == 5) (λ _. overflown) (λ _. plain)))

marked_error :
    (s : Session) (reason error : ℕ)
    → 0x80000000 ≤ error
    → (marked s reason error).status.error_code ≡ error
unfolding marked
marked_error s reason error e = ground arith

marked-IsNamed :
    (s : Session) (reason error : ℕ) → IsNamed s.status → IsNamed (marked s reason error).status
unfolding marked
marked-IsNamed s reason error n = record {
  session = n.session;
  planned = n.planned;
  active = n.active;
  restored = n.restored;
}

marked_live :
    (s : Session) (reason error : ℕ) → IsLive s → (marked s reason error).restore_called ≡ false
unfolding marked
marked_live s reason error l = l.unrestored

failed_as-IsValid :
    {s : Session} (restore_ret reason error : ℕ)
    → 0x80000000 ≤ error
    → IsNamed s.status
    → IsEnded s
    → (restore_ret ≡ 0 → s.status.state ≡ 5)
    → (restore_ret ≡ 0 → s.status.terminal_reason ≡ reason)
    → (restore_ret ≡ 0 → s.status.error_code ≡ error)
    → IsValid (failed_as s restore_ret reason error)
unfolding failed_as
failed_as-IsValid {s} restore_ret reason error e n v state why code =
    elim (Bool-cases (restore_ret == 0)) [
      | inl z ↦
          (let zero : restore_ret ≡ 0 = ground (arith, z) in
            let given : (error == 0) ≡ false = ground arith in
            rw (z, given)
              (record {
                named = record {
                  session = n.session;
                  planned = n.planned;
                  active = n.active;
                  restored = n.restored;
                };
                phase = inr (record {
                  late = omega arith;
                  restored = v.restored;
                  consistent = rw (state zero, why zero, code zero) at v.consistent;
                });
              }))
      | inr nz ↦ rw nz (record {
        named = n;
        phase = inr (record { late = v.late; restored = v.restored; consistent = v.consistent });
      })
    ]

module _ {D : Type 0} (ops : DeviceOps D) (c : DeviceContract ops) where
  pub restore_ends :
      (d : D) (s : Session) {reason final_state : ℕ} (required : ℕ)
      → IsNamed s.status
      → Marked s.status.flags
      → s.restore_called ≡ false
      → Closing final_state reason s.status.error_code
      → let after = (restore ops d s reason final_state required).0.1 in
        IsNamed after.status × IsEnded after
  unfolding restore
  restore_ends d s {reason} {final_state} required n m unrestored closes =
      let (ret, receipt) = (ops.cancel_restore d reason).0 in
      let anchored = anchored_receipt s required receipt in
      let error = restore_verdict (normalize_error ret) anchored reason required in
      let (late, consistent) =
        restored_status_lem s.status anchored required
          (restore_verdict-IsErrno (normalize_error ret) anchored reason required
            (normalize_error-IsErrno ret))
          m closes in
      rw unrestored (
        record {
          session = n.session;
          planned = n.planned;
          active = n.active;
          restored = subst IsShown (anchored_profile s required receipt) (c d reason);
        },
        record { late = late; restored = refl; consistent = consistent },
      )

  restore-good :
      (d : D) (s : Session) (reason final_state required : ℕ)
      → s.restore_called ≡ false
      → let (ret, s₂) = (restore ops d s reason final_state required).0 in
        ret ≡ 0
        → (s₂.status.state ≡ final_state)
          × (s₂.status.terminal_reason ≡ reason)
          × (s₂.status.error_code ≡ s.status.error_code)
  unfolding restore restored_status
  restore-good d s reason final_state required unrestored =
      rw unrestored (λ good. rw good (refl, refl, refl))

  -- A failure of a live session with a reason that is one of a failure.
  pub fail-IsValid :
      (d : D) {s : Session} (reason error : ℕ)
      → IsNamed s.status
      → IsLive s
      → 4 ≤ reason
      → reason ≤ 8
      → 0x80000000 ≤ error
      → IsValid (fail ops d s reason error).0.1
  unfolding fail terminal
  fail-IsValid d {s} reason error n l low high e =
      let m = marked s reason error in
      let given : m.status.error_code ≡ error = marked_error s reason error e in
      let (named, ended) =
        restore_ends d m 0 (marked-IsNamed s reason error n) (marked_flags s reason error l.quiet)
          (marked_live s reason error l)
          (subst (Closing 5 reason) (sym given) (failing low high e)) in
      let good = restore-good d m reason 5 0 (marked_live s reason error l) in
      let open_state : leb 3 s.status.state ≡ false = ground (arith, l.early) in
      rw open_state (
        failed_as-IsValid ((restore ops d m reason 5 0).0.0) reason error e named ended
          (λ z. (good z).0) (λ z. (good z).1) (λ z. (good z).2 ∙ given))
