-- ===== src/HopSession/Restore.antt =====
-- The ends of a session of iiod/spf-hop-session.c: `restore` and `fail`.
use Prim.Native.Nat.{bit_or}
use libiio.Prelude.{
  ℕ, ltb, leb, ◌==◌, Bool, true, not, ◌&&◌, ◌||◌, if◌then◌else◌, eio, erange, ebadmsg, epipe,
}
use libiio.HopProtocol.{Status}
use libiio.HopSession.{
  Session, Receipt, DeviceOps, bits, completed, failed, plan_complete, event_overflow, event_order,
  counter_discontinuity, restore_failed,
}
use libiio.HopSession.Counter.{extend_counter_near}

unfoldable pub terminal : Session → Bool
terminal s = leb completed s.status.state

-- a positive int is no errno
unfoldable pub normalize_error : ℕ → ℕ
normalize_error error = if not (error == 0) && ltb error 0x80000000 then bits eio else error

-- The receipt with its counters next to the last block that was delivered.
unfoldable pub anchored_receipt : Session → ℕ → Receipt → Receipt
unfolding extend_counter_near
anchored_receipt s required r =
    let reference = if required == 0 then s.status.last_block_end else required in
    let before = extend_counter_near reference r.transition_before in
    if s.have_last_block
    then record r {
      transition_before = before;
      transition_after = extend_counter_near before r.transition_after;
    }
    else r

-- The error that the restore ends with; 0 only if it succeeded.
unfoldable pub restore_verdict : ℕ → Receipt → ℕ → ℕ → ℕ
unfolding normalize_error
restore_verdict ret r reason required =
    let error = if ret == 0 then normalize_error r.error_code else ret in
    if ret == 0
      && r.error_code == 0
      && r.flags == 3
      && leb r.transition_before r.transition_after
      && not (r.restored_lo_frequency_hz == 0)
    then (if reason == plan_complete && ltb r.transition_before required then bits erange else 0)
    else if error == 0
    then bits ebadmsg
    else error

-- the status that `restore` leaves when the restore ended with `error`
unfoldable pub restored_status : Status → Receipt → ℕ → ℕ → ℕ → ℕ → Status
restored_status st r error reason final_state required =
    let good = error == 0 in
    let attempted = bit_or st.flags 8 in
    record st {
      flags = bit_or (if good then bit_or attempted 16 else attempted) 1;
      restore_before = r.transition_before;
      restore_after = r.transition_after;
      restored_lo_frequency_hz = r.restored_lo_frequency_hz;
      restored_profile = r.restored_profile;
      restore_error = error;
      final_counter = (if reason == plan_complete then required else r.transition_before);
      state = (if good then final_state else failed);
      terminal_reason = (if good then reason else restore_failed);
      error_code = (if good then st.error_code else error);
    }

-- The source tests the flag `SPF_HOP_STATUS_RESTORE_SUCCEEDED`, which only `restore` sets.
unfoldable pub restore : {D : Type 0} → DeviceOps D → D → Session → ℕ → ℕ → ℕ → (ℕ × Session) × D
unfolding normalize_error anchored_receipt restore_verdict restored_status
restore ops d s reason final_state required =
    let ((ret, receipt), d₂) = ops.cancel_restore d reason in
    let anchored = anchored_receipt s required receipt in
    let error = restore_verdict (normalize_error ret) anchored reason required in
    if s.restore_called then ((s.status.restore_error, s), d) else (
      (
        error,
        record s {
          restore_called = true;
          status = restored_status s.status anchored error reason final_state required;
        },
      ),
      d₂,
    )

-- the cause of the failure, before the device is restored
unfoldable pub marked : Session → ℕ → ℕ → Session
marked s reason error =
    let overflow = if reason == event_overflow then bit_or s.status.flags 2 else s.status.flags in
    record s {
      status = record s.status {
        error_code = (if error == 0 then bits eio else error);
        flags =
            (if reason == event_order || reason == counter_discontinuity
              then bit_or overflow 4
              else overflow);
      };
    }

-- what `fail` writes after the restore
unfoldable pub failed_as : Session → ℕ → ℕ → ℕ → Session
failed_as s restore_ret reason error =
    let given = if error == 0 then bits eio else error in
    record s {
      status =
          (if restore_ret == 0
            then record s.status { state = failed; terminal_reason = reason; error_code = given }
            else s.status);
      terminal_error =
          (if not (error == 0)
            then error
            else if not (restore_ret == 0)
            then restore_ret
            else bits eio);
    }

unfoldable pub fail : {D : Type 0} → DeviceOps D → D → Session → ℕ → ℕ → (ℕ × Session) × D
unfolding terminal marked restore failed_as
fail ops d s reason error =
    let ((ret, s₂), d₂) = restore ops d (marked s reason error) reason failed 0 in
    let s₃ = failed_as s₂ ret reason error in
    if terminal s
    then (((if s.terminal_error == 0 then bits epipe else s.terminal_error), s), d)
    else ((s₃.terminal_error, s₃), d₂)
