-- ===== src/VisitQueue/Step.antt =====
-- Every call of the interface of iiod/spf-visit-queue.c keeps the books.
use libiio.Prelude.{
  ℕ, zero, suc, ◌≡◌, refl, sym, true, List, [], ◌∷◌, some, arith, ℤ, subst, Bool-cases, inl, inr,
  replicate,
}
use libiio.VisitQueue
use libiio.VisitQueue.{
  config_valid, Queue, Visit, Outcome, Config, Block, Slice, empty_block, max_blocks, reap_blocks,
  discard, unref, over_visits, each_visit,
}
use libiio.VisitQueue.Feed
use libiio.VisitQueue.Feed.{Frame, frame, feed_visit, lease, scan_blocks, awaits_bind}
use libiio.VisitQueue.Ops
use libiio.VisitQueue.Ops.{split_last, bind_visit, close_in, close_visit}
use libiio.VisitQueue.Sums.{flags}
use libiio.VisitQueue.Accounts.{
  count_true, config-Bounds, IsAccounted, reserve-IsAccounted, IsWithinHeadroom,
  reserve-IsWithinHeadroom, expire-IsAccounted, cancel-IsAccounted,
}
use libiio.VisitQueue.Books.{
  bind-IsAccounted, close_window-IsAccounted, complete_send-IsAccounted, feed-IsAccounted,
  reap-IsAccounted, take-IsAccounted,
}

-- a call of the interface; `reap` with what the release callback returns for each token
pub data Op : Type 0 where
  reap : (ℕ → ℤ) → Op
  reserve : ℕ → ℕ → ℕ → Op
  bind : ℕ → ℕ → Op
  feed : ℕ → ℕ → ℕ → ℕ → Op
  close_window : ℕ → ℕ → Op
  take : Op
  complete_send : ℕ → Op
  expire : ℕ → Op
  cancel : Op

unfoldable pub step : Queue → Op → Queue
step q (reap release) = (VisitQueue.reap release q).1
step q (reserve id samples now) = (Ops.reserve q id samples now).2
step q (bind id start) = (Ops.bind q id start).1
step q (feed token address first samples) = (Feed.feed q token address first samples).1
step q (close_window id invalid) = (Ops.close_window q id invalid).1
step q take = (Ops.take q).2
step q (complete_send id) = (Ops.complete_send q id).1
step q (expire now) = (Ops.expire q now).1
step q cancel = (Ops.cancel q).1

unfoldable pub run : Queue → List Op → Queue
run q [] = q
run q (op ∷ ops) = run (step q op) ops

pub step-IsAccounted : (op : Op) (q : Queue) → IsAccounted q → IsAccounted (step q op)
unfolding step Ops.bind Ops.take Ops.complete_send
step-IsAccounted (reap release) q h = reap-IsAccounted release q h
step-IsAccounted (reserve id samples now) q h = reserve-IsAccounted q id samples now h
step-IsAccounted (bind id start) q h = bind-IsAccounted q id start q.visits refl h
step-IsAccounted (feed token address first samples) q h =
    feed-IsAccounted q token address first samples h
step-IsAccounted (close_window id invalid) q h = close_window-IsAccounted q id invalid h
step-IsAccounted take q h = take-IsAccounted q q.visits refl h
step-IsAccounted (complete_send id) q h = complete_send-IsAccounted q id q.visits refl h
step-IsAccounted (expire now) q h = expire-IsAccounted q now h
step-IsAccounted cancel q h = cancel-IsAccounted q h

none_owned : (n m : ℕ) → count_true n (flags (replicate m empty_block)) ≡ 0
none_owned zero m = refl
none_owned (suc n) zero = refl
none_owned (suc n) (suc m) = omega (arith, none_owned n m)

fresh-IsAccounted : (c : Config) → config_valid c ≡ true → IsAccounted (VisitQueue.fresh c)
unfolding VisitQueue.fresh
fresh-IsAccounted c h = record {
  valid = h;
  bytes = refl;
  blocks = refl;
  leases = sym (none_owned c.block_count max_blocks);
  bytes_room = omega arith;
  blocks_room = omega (arith, config-Bounds c h);
  visits_room = omega arith;
}

create-IsAccounted : (c : Config) {q : Queue} → VisitQueue.create c ≡ some q → IsAccounted q
unfolding VisitQueue.create
create-IsAccounted c {q} e = elim (Bool-cases (config_valid c)) [
  | inl v ↦ subst IsAccounted (ground arith) (fresh-IsAccounted c v)
  | inr v ↦ ground arith
]

run-keeps : (ops : List Op) (q : Queue) → IsAccounted q → IsAccounted (run q ops)
unfolding run
run-keeps [] q h = h
run-keeps (op ∷ ops) q h = run-keeps ops (step q op) (step-IsAccounted op q h)

-- From a queue that `create` accepts, after any calls: the reserved bytes and blocks are those of
-- the visits, the leased blocks are the owned ones, the bytes and visits stay within the configured
-- limits, and the reserved blocks leave the headroom free. A reservation then either leaves the queue
-- as it is, or the leased and the reserved blocks together leave the headroom free.
pub run-IsAccounted :
    (ops : List Op) (c : Config) {q : Queue}
    → VisitQueue.create c ≡ some q
    → (id samples now : ℕ)
    → IsAccounted (run q ops)
      × IsWithinHeadroom (run q ops) (Ops.reserve (run q ops) id samples now).2
run-IsAccounted ops c {q} e id samples now =
    let h = run-keeps ops q (create-IsAccounted c e) in
    (h, reserve-IsWithinHeadroom (run q ops) id samples now h)
