-- ===== src/VisitQueue/Complete.antt =====
-- Views that the transport takes from a visit queue (iiod/spf-visit-queue.c).
use libiio.Prelude.{
  ℕ, ◌-◌, ◌*◌, ◌≤◌, ◌≡◌, refl, List, [], ◌∷◌, some, arith, if_elim, true, Bool-cases, Option-cases,
  inl, inr, ℤ, All, subst, ◌⊎◌,
}
use libiio.VisitQueue
use libiio.VisitQueue.{Queue, Visit, Config, complete, max_blocks, over_visits}
use libiio.VisitQueue.Feed
use libiio.VisitQueue.Feed.{frame, feed_visit, lease, scan_blocks}
use libiio.VisitQueue.Ops
use libiio.VisitQueue.Ops.{View, cancel_visit, expire_visit}
use libiio.VisitQueue.Accounts.{admits-cases}
use libiio.VisitQueue.Step.{
  Op, reap, reserve, bind, feed, close_window, take, complete_send, expire, cancel, step, run,
}
use libiio.VisitQueue.Cover.{
  sum_slices, IsCovered, AllCovered, over_visits-AllCovered, feed_visit-IsCovered,
  expire_visit-IsCovered, cancel_visit-IsCovered, bind-AllCovered, take-AllCovered,
  complete_send-AllCovered, admit-AllCovered, close_window-AllCovered,
}

lease-AllCovered : (q : Queue) (f : Feed.Frame) → AllCovered q → AllCovered (lease q f)
unfolding lease
lease-AllCovered q f h = h

-- Either nothing changes, or a block is leased and shown to every visit.
feed-cases :
    (q : Queue) (token address first samples : ℕ)
    → ((Feed.feed q token address first samples).1 ≡ q)
      ⊎ ((f : Feed.Frame) × ((Feed.feed q token address first samples).1
            ≡ over_visits (feed_visit f) (lease q f)))
unfolding Feed.feed
feed-cases q token address first samples =
    elim (Option-cases (scan_blocks token 0 q.config.block_count q.blocks max_blocks)) [
      | inl e ↦ inl (rw (e, Feed.feed) (ground arith))
      | inr (slot, e) ↦ elim (at slot e) [
        | inl k ↦ inl k
        | inr k ↦ inr (frame slot token address first samples, k)
      ]
    ]
  where
    at :
        (slot : ℕ)
        → scan_blocks token 0 q.config.block_count q.blocks max_blocks ≡ some slot
        → ((Feed.feed q token address first samples).1 ≡ q)
          ⊎ ((Feed.feed q token address first samples).1
              ≡ over_visits
                  (feed_visit (frame slot token address first samples))
                  (lease q (frame slot token address first samples)))
    at slot e = rw (e, Feed.feed) (ground arith)

feed-AllCovered :
    (q : Queue) (token address first samples : ℕ)
    → AllCovered q
    → AllCovered (Feed.feed q token address first samples).1
feed-AllCovered q token address first samples h = elim (feed-cases q token address first samples) [
  | inl e ↦ rw e h
  | inr (f, e) ↦ rw e (
      over_visits-AllCovered (feed_visit f) (feed_visit-IsCovered f) (lease q f)
        (lease-AllCovered q f h))
]

step-AllCovered : (op : Op) (q : Queue) → AllCovered q → AllCovered (step q op)
unfolding step Ops.bind Ops.take Ops.complete_send VisitQueue.reap Ops.expire Ops.cancel
step-AllCovered (reap release) q h = h
step-AllCovered (reserve id samples now) q h = elim (admits-cases q id samples now) [
  | inl same ↦ rw same h
  | inr a ↦ rw a.0 (admit-AllCovered q id samples now h)
]
step-AllCovered (bind id start) q h = bind-AllCovered q id start q.visits refl h
step-AllCovered (feed token address first samples) q h =
    feed-AllCovered q token address first samples h
step-AllCovered (close_window id invalid) q h = close_window-AllCovered q id invalid h
step-AllCovered take q h = take-AllCovered q q.visits refl h
step-AllCovered (complete_send id) q h = complete_send-AllCovered q id q.visits refl h
step-AllCovered (expire now) q h =
    if_elim (λ (s : ℤ × Queue). AllCovered s.1) (Ops.clocks_ahead q.visits now) (λ _. h)
      (λ _. over_visits-AllCovered (expire_visit now) (expire_visit-IsCovered now) q h)
step-AllCovered cancel q h =
    over_visits-AllCovered cancel_visit cancel_visit-IsCovered (record q { cancelled = true }) h

run-AllCovered : (ops : List Op) (q : Queue) → AllCovered q → AllCovered (run q ops)
unfolding run
run-AllCovered [] q h = h
run-AllCovered (op ∷ ops) q h = run-AllCovered ops (step q op) (step-AllCovered op q h)

create-AllCovered : (c : Config) {q : Queue} → VisitQueue.create c ≡ some q → AllCovered q
unfolding VisitQueue.create VisitQueue.fresh
create-AllCovered c {q} e = elim (Bool-cases (VisitQueue.config_valid c)) [
  | inl v ↦ let same : VisitQueue.fresh c ≡ q = ground arith in subst AllCovered same tt
  | inr v ↦ ground arith
]

taken_covers :
    (q : Queue) (vs : List Visit) {w : View}
    → All (IsCovered q.config.bytes_per_sample) vs
    → (Ops.take_first q vs).1 ≡ some w
    → w.result ≡ complete
    → (w.start ≤ w.end) × (sum_slices w.slices ≡ (w.end - w.start) * q.config.bytes_per_sample)
unfolding Ops.take_first
taken_covers q [] h e c = ground arith
taken_covers q (v ∷ vs) h e c = ground (arith, h.0)

-- After any calls on a queue that `create` accepts, a view that `take` hands out as complete has
-- slices whose bytes add up to those of all the samples of its window.
pub complete_view-covers :
    (ops : List Op) (c : Config) {q : Queue} {w : View}
    → VisitQueue.create c ≡ some q
    → (Ops.take (run q ops)).1 ≡ some w
    → w.result ≡ complete
    → (w.start ≤ w.end)
      × (sum_slices w.slices ≡ (w.end - w.start) * (run q ops).config.bytes_per_sample)
unfolding Ops.take
complete_view-covers ops c {q} e t full =
    taken_covers (run q ops) (run q ops).visits (run-AllCovered ops q (create-AllCovered c e)) t
      full
