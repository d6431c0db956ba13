-- ===== src/DdrRing/Step.antt =====
-- The calls that the owner of a ring of iiod/ddr-ring-core.c makes, in any order.
use libiio.Prelude.{ℕ, ◌≡◌, Option, none, some, ◌<◌, word64, List, [], ◌∷◌, ℤ, ok, arith}
use libiio.DdrRing
use libiio.DdrRing.{Ring, init}
use libiio.DdrRing.Inv.{
  IsValid, init-IsValid, start-IsValid, start_extension-IsValid, producer_reserve-IsValid,
  producer_commit-IsValid, producer_abort-IsValid, consumer_release-IsValid,
  complete_extension-IsValid,
}
use libiio.DdrRing.Ops.{
  consumer_reserve-IsValid, discard_pending-IsValid, fail-IsValid, cancel-IsValid,
}

pub data Op : Type 0 where
  start start_extension producer_reserve producer_commit producer_abort : Op
  consumer_reserve consumer_release discard_pending complete_extension : Op
  mark_unavailable : ℕ → Op
  observe_samples : ℕ → ℕ → Op
  fail : ℕ → ℤ → Op
  cancel : ℕ → Op

-- a call with no output but its status
abbrev pub quiet : ℤ × Ring → ℤ × Option ℕ × Ring
quiet (ret, r) = (ret, none, r)

-- The option is what the call writes through its pointer.
unfoldable pub step : Ring → Op → ℤ × Option ℕ × Ring
step r start = quiet (DdrRing.start r)
step r start_extension = quiet (DdrRing.start_extension r)
step r producer_reserve = DdrRing.producer_reserve r
step r producer_commit = quiet (DdrRing.producer_commit r)
step r producer_abort = quiet (DdrRing.producer_abort r)
step r consumer_reserve = DdrRing.consumer_reserve r
step r consumer_release = quiet (DdrRing.consumer_release r)
step r discard_pending = DdrRing.discard_pending r
step r complete_extension = quiet (DdrRing.complete_extension r)
step r (mark_unavailable n) = (ok, none, DdrRing.mark_unavailable r n)
step r (observe_samples f n) = quiet (DdrRing.observe_samples r f n)
step r (fail reason error) = quiet (DdrRing.fail r reason error)
step r (cancel reason) = quiet (DdrRing.cancel r reason)

unfoldable pub run : Ring → List Op → Ring
run r [] = r
run r (op ∷ ops) = run (step r op).2 ops

mark_unavailable-IsValid : {r : Ring} (n : ℕ) → IsValid r → IsValid (DdrRing.mark_unavailable r n)
unfolding DdrRing.mark_unavailable
mark_unavailable-IsValid {r} n v = grind arith

observe_samples-IsValid :
    {r : Ring} (f n : ℕ) → IsValid r → IsValid (DdrRing.observe_samples r f n).1
unfolding DdrRing.observe_samples
observe_samples-IsValid {r} f n v = grind arith

-- Every operation keeps the representation invariant, whatever it returns.
pub step-IsValid : {r : Ring} (op : Op) → IsValid r → IsValid (step r op).2
unfolding step
step-IsValid start v = start-IsValid v
step-IsValid start_extension v = start_extension-IsValid v
step-IsValid producer_reserve v = producer_reserve-IsValid v
step-IsValid producer_commit v = producer_commit-IsValid v
step-IsValid producer_abort v = producer_abort-IsValid v
step-IsValid consumer_reserve v = consumer_reserve-IsValid v
step-IsValid consumer_release v = consumer_release-IsValid v
step-IsValid discard_pending v = discard_pending-IsValid v
step-IsValid complete_extension v = complete_extension-IsValid v
step-IsValid (mark_unavailable n) v = mark_unavailable-IsValid n v
step-IsValid (observe_samples f n) v = observe_samples-IsValid f n v
step-IsValid (fail reason error) v = fail-IsValid reason error v
step-IsValid (cancel reason) v = cancel-IsValid reason v

run-IsValid : (ops : List Op) {r : Ring} → IsValid r → IsValid (run r ops)
unfolding run
run-IsValid [] v = v
run-IsValid (op ∷ ops) v = run-IsValid ops (step-IsValid op v)

-- A ring that `init` accepts, of fewer than 2^64 slots, satisfies the representation invariant
-- after every sequence of calls: the states of the slots are those that the positions, the number
-- of occupied slots and the two reservations say.
pub reachable-IsValid :
    (count target : ℕ) (ops : List Op) {r : Ring}
    → count < word64
    → init count target ≡ some r
    → IsValid (run r ops)
reachable-IsValid count target ops h e = run-IsValid ops (init-IsValid count target h e)
