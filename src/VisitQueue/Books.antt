-- ===== src/VisitQueue/Books.antt =====
-- What each call of iiod/spf-visit-queue.c does to the books.
use libiio.Prelude.{
  ℕ, zero, suc, ◌+◌, ◌<◌, ◌≡◌, ◌≢◌, refl, sym, ◌∙◌, ap, true, false, not, ◌&&◌, ◌||◌, List, [], ◌∷◌,
  ◌++◌, some, arith, word32, ◌==◌, length, length-append, ℤ, ok, is_zero, if◌then◌else◌, Bool-cases,
  Option-cases, ◌⊎◌, inl, inr, set, get_or, sub32,
}
use libiio.VisitQueue
use libiio.VisitQueue.{
  config_valid, Queue, Visit, Outcome, Config, Block, Slice, empty_block, max_blocks, reap_blocks,
  discard, unref, over_visits, each_visit,
}
use libiio.VisitQueue.Feed
use libiio.VisitQueue.Feed.{Frame, frame, feed_visit, lease, scan_blocks, awaits_bind}
use libiio.VisitQueue.Ops
use libiio.VisitQueue.Ops.{split_last, bind_visit, close_in, close_visit}
use libiio.VisitQueue.Sums.{
  flags, flags-unref, sum_bytes, sum_blocks, Balanced, Kept, Kept-refl, feed_visit-Balanced,
  close_visit-Balanced,
}
use libiio.VisitQueue.Accounts.{
  count_true, count_true-le, IsAccounted, config-Bounds, sum-append, over_visits-IsAccounted,
}

pub split_last-append :
    (ws : List Visit) (w : Visit) → let (r, l) = split_last w ws in r ++ (l ∷ []) ≡ w ∷ ws
unfolding split_last
split_last-append [] w = refl
split_last-append (x ∷ ws) w = ap (λ xs. w ∷ xs) (split_last-append ws x)

-- A queue with other visits of the same sums keeps its books.
same_sums :
    (q : Queue) (vs : List Visit)
    → sum_bytes vs ≡ sum_bytes q.visits
    → sum_blocks vs ≡ sum_blocks q.visits
    → length vs ≡ length q.visits
    → IsAccounted q
    → IsAccounted (record q { visits = vs })
same_sums q vs b k l h = ground arith

bound-IsAccounted :
    (q : Queue) (end start : ℕ) (w : Visit) (ws : List Visit)
    → q.visits ≡ w ∷ ws
    → IsAccounted q
    → let (r, l) = split_last w ws in
      IsAccounted (record q { visits = r ++ (bind_visit l start ∷ []); last_valid_end = end })
unfolding bind_visit
bound-IsAccounted q end start w ws e h =
    let r = (split_last w ws).0 in
    let l = (split_last w ws).1 in
    let l' : Visit = bind_visit l start in
    let old = split_last-append ws w ∙ sym e in
    let s = sum-append r (l ∷ []) in
    let s' = sum-append r (l' ∷ []) in
    ground (
      arith,
      h,
      s,
      s',
      ap sum_bytes old,
      ap sum_blocks old,
      ap length old,
      length-append r (l ∷ []),
      length-append r (l' ∷ []),
    )

pub bind-IsAccounted :
    (q : Queue) (id start : ℕ) (vs : List Visit)
    → q.visits ≡ vs
    → IsAccounted q
    → IsAccounted (Ops.bind_last q id start vs).1
unfolding Ops.bind_last
bind-IsAccounted q id start [] e h = h
bind-IsAccounted q id start (w ∷ ws) e h =
    ground (arith, bound-IsAccounted q (start + (split_last w ws).1.samples) start w ws e h)

pub take-IsAccounted :
    (q : Queue) (vs : List Visit)
    → q.visits ≡ vs
    → IsAccounted q
    → IsAccounted (Ops.take_first q vs).2
unfolding Ops.take_first
take-IsAccounted q [] e h = h
take-IsAccounted q (v ∷ vs) e h = ground (
  arith,
  same_sums q (record v { sending = true } ∷ vs) (sym (ap sum_bytes e)) (sym (ap sum_blocks e))
      (sym (ap length e)) h,
)

pub complete_send-IsAccounted :
    (q : Queue) (id : ℕ) (vs : List Visit)
    → q.visits ≡ vs
    → IsAccounted q
    → IsAccounted (Ops.complete_first q id vs).1
unfolding Ops.complete_first
complete_send-IsAccounted q id [] e h = h
complete_send-IsAccounted q id (v ∷ vs) e h =
    let c = config-Bounds q.config h.valid in
    ground
      (arith, h, c, flags-unref v.slices q.blocks, ap sum_bytes e, ap sum_blocks e, ap length e)

close_in-Balanced :
    (id invalid : ℕ) (vs : List Visit) (q : Queue) (ob ok : ℕ)
    → Balanced q ob ok (sum_bytes vs) (sum_blocks vs)
    → let (e, q', vs') = close_in q vs id invalid in
      Balanced q' ob ok (sum_bytes vs') (sum_blocks vs') × Kept q q' × (length vs' ≡ length vs)
unfolding close_in
close_in-Balanced id invalid [] q ob ok h = (h, Kept-refl q, refl)
close_in-Balanced id invalid (v ∷ vs) q ob ok h =
    let rest =
      close_in-Balanced id invalid vs q (ob + v.bytes) (ok + v.remaining_blocks) (omega arith) in
    let here =
      close_visit-Balanced invalid q v (ob + sum_bytes vs) (ok + sum_blocks vs) (omega arith) in
    (ground (arith, rest, here), ground (arith, rest, here), ground (arith, rest))

pub close_window-IsAccounted :
    (q : Queue) (id invalid : ℕ) → IsAccounted q → IsAccounted (Ops.close_window q id invalid).1
unfolding Ops.close_window
close_window-IsAccounted q id invalid h =
    let c = config-Bounds q.config h.valid in
    let loop = close_in-Balanced id invalid q.visits q 0 0 (omega (arith, h, c)) in
    record {
      valid = rw loop.1.config h.valid;
      bytes = omega (arith, loop.0);
      blocks = omega (arith, loop.0);
      leases = rw (loop.1.config, loop.1.leased, loop.1.owned) h.leases;
      bytes_room = rw loop.1.config (omega (arith, loop.1, h));
      blocks_room = rw loop.1.config (omega (arith, loop.1, h));
      visits_room = rw (loop.1.config, loop.2) h.visits_room;
    }

-- What the scan finds is the last index that it was given, or a block that is not owned.
pub scan_blocks-lem :
    (token n i : ℕ) (bs : List Block) (slot : ℕ) {s : ℕ}
    → scan_blocks token i n bs slot ≡ some s
    → (s ≡ slot)
      ⊎ ((k : ℕ) × (s ≡ i + k)
          × (k < n)
          × (k < length bs)
          × ((get_or bs k empty_block).owned ≡ false))
unfolding scan_blocks
scan_blocks-lem token zero i bs slot h = inl (ground arith)
scan_blocks-lem token (suc n) i [] slot h = inl (ground arith)
scan_blocks-lem token (suc n) i (b ∷ bs) slot {s} h = elim (Bool-cases b.owned) [
  | inl o ↦ elim (scan_blocks-lem token n (i + 1) bs slot {s = s} (ground arith)) [
    | inl e ↦ inl e
    | inr (k, e, p, q, f) ↦ inr (suc k, omega arith, omega arith, omega arith, f)
  ]
  | inr o ↦ elim (scan_blocks-lem token n (i + 1) bs i {s = s} (ground arith)) [
    | inl e ↦ inr (0, omega arith, omega arith, omega arith, o)
    | inr (k, e, p, q, f) ↦ inr (suc k, omega arith, omega arith, omega arith, f)
  ]
]

count_true-set :
    (n k : ℕ) (bs : List Block) (b : Block)
    → k < n
    → k < length bs
    → (get_or bs k empty_block).owned ≡ false
    → b.owned ≡ true
    → count_true n (flags (set bs k b)) ≡ suc (count_true n (flags bs))
count_true-set zero k bs b p q f e = absurd (omega arith)
count_true-set (suc n) k [] b p q f e = absurd (omega arith)
count_true-set (suc n) zero (c ∷ bs) b p q f e = ground arith
count_true-set (suc n) (suc k) (c ∷ bs) b p q f e =
    ground (arith, count_true-set n k bs b (omega arith) (omega arith) f e)

-- A block that the scan found is leased.
lease-IsAccounted :
    (q : Queue) (token address first samples : ℕ) {slot : ℕ}
    → scan_blocks token 0 q.config.block_count q.blocks max_blocks ≡ some slot
    → slot ≢ max_blocks
    → IsAccounted q
    → IsAccounted (lease q (frame slot token address first samples))
unfolding lease
lease-IsAccounted q token address first samples {slot} e ne h =
    elim (scan_blocks-lem token q.config.block_count 0 q.blocks max_blocks e) [
      | inl same ↦ absurd (ne same)
      | inr (k, at, p, r, f) ↦
          let c = config-Bounds q.config h.valid in
          let b : Block = record { token = token; address = address; refs = 0; owned = true } in
          let same : slot ≡ k = omega arith in
          let more = count_true-set q.config.block_count k q.blocks b p r f refl in
          let few = count_true-le q.config.block_count (flags q.blocks) in
          record {
            valid = h.valid;
            bytes = h.bytes;
            blocks = h.blocks;
            leases = rw (same, more) (omega (arith, h, c, few));
            bytes_room = h.bytes_room;
            blocks_room = h.blocks_room;
            visits_room = h.visits_room;
          }
    ]

pub feed-IsAccounted :
    (q : Queue) (token address first samples : ℕ)
    → IsAccounted q
    → IsAccounted (Feed.feed q token address first samples).1
unfolding Feed.feed
feed-IsAccounted q token address first samples h =
    elim (Option-cases (scan_blocks token 0 q.config.block_count q.blocks max_blocks)) [
      | inl e ↦ rw (e, Feed.feed) (ground arith)
      | inr (slot, e) ↦
          rw (e, Feed.feed)
            (elim (Bool-cases (slot == max_blocks)) [
              | inl full ↦ ground arith
              | inr free ↦
                  let f = frame slot token address first samples in
                  ground (
                    arith,
                    over_visits-IsAccounted (feed_visit f) (feed_visit-Balanced f) (lease q f)
                        (lease-IsAccounted q token address first samples e (ground arith) h),
                  )
            ])
    ]

-- Reaping counts each block that goes.
reap_blocks-count :
    (release : ℕ → ℤ) (n : ℕ) (bs : List Block) (error : ℤ) (leased other : ℕ)
    → leased < word32
    → leased ≡ other + count_true n (flags bs)
    → let (e, bs', l) = reap_blocks release n bs error leased in
      l ≡ other + count_true n (flags bs')
unfolding reap_blocks
reap_blocks-count release zero bs error leased other p h = h
reap_blocks-count release (suc n) [] error leased other p h = h
reap_blocks-count release (suc n) (b ∷ bs) error leased other p h =
    let kept = not b.owned || not (b.refs == 0) in
    let ret = release b.token in
    let error' = if not kept && not (is_zero ret) && is_zero error then ret else error in
    let gone = not kept && is_zero ret in
    let after : Block = if gone then empty_block else b in
    omega (
      arith,
      reap_blocks-count release n bs error' (if gone then sub32 leased 1 else leased)
          (other + (if after.owned then 1 else 0)) (ground arith) (ground arith),
    )

pub reap-IsAccounted :
    (release : ℕ → ℤ) (q : Queue) → IsAccounted q → IsAccounted (VisitQueue.reap release q).1
unfolding VisitQueue.reap
reap-IsAccounted release q h =
    let c = config-Bounds q.config h.valid in
    let few = count_true-le q.config.block_count (flags q.blocks) in
    record {
      valid = h.valid;
      bytes = h.bytes;
      blocks = h.blocks;
      leases = omega (
        arith,
        reap_blocks-count release q.config.block_count q.blocks ok q.leased_blocks 0
            (omega (arith, h, c, few)) (omega (arith, h)),
      );
      bytes_room = h.bytes_room;
      blocks_room = h.blocks_room;
      visits_room = h.visits_room;
    }
