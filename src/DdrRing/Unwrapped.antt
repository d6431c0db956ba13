-- ===== src/DdrRing/Unwrapped.antt =====
-- The counters of a ring of iiod/ddr-ring-core.c while none of them has wrapped.
use libiio.Prelude.{
  ℕ, ◌+◌, ◌≤◌, ◌<◌, ◌≡◌, true, List, [], ◌∷◌, some, arith, if_elim, length, ℤ, word64, suc,
}
use libiio.DdrRing
use libiio.DdrRing.{
  Ring, State, init, abort_reserved, committed_ring, released_ring, taken_ring, discarded_ring,
}
use libiio.DdrRing.Inv.{IsValid, producer_commit-eq, consumer_release-eq}
use libiio.DdrRing.Step.{
  Op, start, start_extension, producer_reserve, producer_commit, producer_abort, consumer_reserve,
  consumer_release, discard_pending, complete_extension, mark_unavailable, observe_samples, fail,
  cancel, step, step-IsValid, run,
}

-- the counters after `n` calls, while none has wrapped
pub record IsUnwrapped (r : Ring) (n : ℕ) : Type 0 where
  pub held : r.consumed_frames + r.occupied ≤ r.produced_frames
  pub high_water : r.high_water_frames ≤ r.produced_frames
  pub few : r.produced_frames ≤ n
  pub reason : r.terminal_reason ≤ 8

module _ {r : Ring} {n : ℕ} (small : n + 1 < word64) (v : IsValid r) (c : IsUnwrapped r n) where
  commit-IsUnwrapped : r.producer_reserved ≡ true → IsUnwrapped (committed_ring r) (n + 1)
  unfolding committed_ring
  commit-IsUnwrapped e = ground arith

  release-IsUnwrapped : r.consumer_reserved ≡ true → IsUnwrapped (released_ring r) (n + 1)
  unfolding released_ring
  release-IsUnwrapped e = ground arith

  later : IsUnwrapped r (n + 1)
  later = ground arith

  abort_reserved-IsUnwrapped : IsUnwrapped (abort_reserved r) (n + 1)
  unfolding abort_reserved DdrRing.producer_abort
  abort_reserved-IsUnwrapped = ground arith

  discard-IsUnwrapped : IsUnwrapped (DdrRing.discard_pending r).2 (n + 1)
  unfolding DdrRing.discard_pending discarded_ring
  discard-IsUnwrapped = ground arith

  serve-IsUnwrapped : IsUnwrapped (DdrRing.consumer_reserve r).2 (n + 1)
  unfolding DdrRing.consumer_reserve taken_ring
  serve-IsUnwrapped = ground arith

  reserve-IsUnwrapped : IsUnwrapped (DdrRing.producer_reserve r).2 (n + 1)
  unfolding DdrRing.producer_reserve
  reserve-IsUnwrapped = ground arith

  release_call-IsUnwrapped : IsUnwrapped (DdrRing.consumer_release r).1 (n + 1)
  release_call-IsUnwrapped = rw (consumer_release-eq v) (
      if_elim (λ (s : ℤ × Ring). IsUnwrapped s.1 (n + 1)) r.consumer_reserved release-IsUnwrapped
        (λ _. later))

  commit_call-IsUnwrapped : IsUnwrapped (DdrRing.producer_commit r).1 (n + 1)
  commit_call-IsUnwrapped = rw (producer_commit-eq v) (
      if_elim (λ (s : ℤ × Ring). IsUnwrapped s.1 (n + 1)) r.producer_reserved commit-IsUnwrapped
        (λ _. later))

step-IsUnwrapped :
    {r : Ring} {n : ℕ} (op : Op)
    → n + 1 < word64
    → IsValid r
    → IsUnwrapped r n
    → IsUnwrapped (step r op).2 (n + 1)
unfolding step
step-IsUnwrapped {r} start s v c = unfold DdrRing.start in ground arith
step-IsUnwrapped {r} start_extension s v c = unfold DdrRing.start_extension in ground arith
step-IsUnwrapped {r} producer_reserve s v c = reserve-IsUnwrapped s v c
step-IsUnwrapped {r} producer_commit s v c = commit_call-IsUnwrapped s v c
step-IsUnwrapped {r} producer_abort s v c = unfold DdrRing.producer_abort in ground arith
step-IsUnwrapped {r} consumer_reserve s v c = serve-IsUnwrapped s v c
step-IsUnwrapped {r} consumer_release s v c = release_call-IsUnwrapped s v c
step-IsUnwrapped {r} discard_pending s v c = discard-IsUnwrapped s v c
step-IsUnwrapped {r} complete_extension s v c = unfold DdrRing.complete_extension in ground arith
step-IsUnwrapped {r} (mark_unavailable m) s v c = unfold DdrRing.mark_unavailable in ground arith
step-IsUnwrapped {r} (observe_samples f m) s v c = unfold DdrRing.observe_samples in ground arith
step-IsUnwrapped {r} (fail reason error) s v c =
    unfold DdrRing.fail in ground (arith, abort_reserved-IsUnwrapped s v c)
step-IsUnwrapped {r} (cancel reason) s v c =
    unfold DdrRing.cancel in ground (arith, abort_reserved-IsUnwrapped s v c)

pub run-IsUnwrapped :
    (ops : List Op) {r : Ring} {n : ℕ}
    → n + length ops < word64
    → IsValid r
    → IsUnwrapped r n
    → IsUnwrapped (run r ops) (n + length ops)
unfolding run
run-IsUnwrapped [] {r} {n} s v c = (let e : n + 0 ≡ n = omega arith in rw e c)
run-IsUnwrapped (op ∷ ops) {r} {n} s v c =
    let e : n + suc (length ops) ≡ n + 1 + length ops = omega arith in
    rw e (
      run-IsUnwrapped ops (omega arith) (step-IsValid op v) (step-IsUnwrapped op (omega arith) v c))

pub init-IsUnwrapped : (count target : ℕ) {r : Ring} → init count target ≡ some r → IsUnwrapped r 0
unfolding init
init-IsUnwrapped count target e = ground arith
