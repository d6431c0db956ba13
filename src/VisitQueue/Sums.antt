-- ===== src/VisitQueue/Sums.antt =====
-- The reservations of iiod/spf-visit-queue.c under the loops over the visits: what a body does to
-- one visit it does to the totals of the queue.
use libiio.Prelude.{
  ℕ, zero, suc, ◌+◌, ◌≤◌, ◌<◌, ◌≡◌, refl, ◌∙◌, ap, Bool, true, List, [], ◌∷◌, arith, word32, word64,
  get_or, set, add32, sub32,
}
use libiio.VisitQueue.{
  Queue, Visit, Outcome, invalid_gap, skip_age, cancelled, Slice, Block, empty_block, unref,
  terminate, each_visit,
}
use libiio.VisitQueue.Feed.{Frame, feed_visit, add_slice, later, earlier}
use libiio.VisitQueue.Ops.{expire_visit, cancel_visit, close_visit}

abbrev pub sum_bytes : List Visit → ℕ
sum_bytes [] = 0
sum_bytes (v ∷ vs) = v.bytes + sum_bytes vs

abbrev pub sum_blocks : List Visit → ℕ
sum_blocks [] = 0
sum_blocks (v ∷ vs) = v.remaining_blocks + sum_blocks vs

-- which blocks are owned
abbrev pub flags : List Block → List Bool
flags [] = []
flags (b ∷ bs) = b.owned ∷ flags bs

flags-set :
    (bs : List Block) (i : ℕ) (b : Block)
    → b.owned ≡ (get_or bs i empty_block).owned
    → flags (set bs i b) ≡ flags bs
flags-set [] i b e = refl
flags-set (c ∷ bs) zero b e = ap (λ x. x ∷ flags bs) e
flags-set (c ∷ bs) (suc i) b e = ap (λ xs. c.owned ∷ xs) (flags-set bs i b e)

pub flags-unref : (slices : List (ℕ × Slice)) (bs : List Block) → flags (unref bs slices) ≡ flags bs
unfolding unref
flags-unref [] bs = refl
flags-unref ((i, s) ∷ r) bs =
    let b = get_or bs i empty_block in
    let b' : Block = record b { refs = sub32 b.refs 1 } in
    flags-unref r (set bs i b') ∙ flags-set bs i b' refl

-- `b` bytes and `k` blocks of a visit or of several, and `ob` and `ok` of the other visits, are
-- what the queue has reserved.
pub record Balanced (q : Queue) (ob ok b k : ℕ) : Type 0 where
  pub bytes : ob + b ≡ q.reserved_bytes
  pub blocks : ok + k ≡ q.reserved_blocks
  pub bytes_small : q.reserved_bytes < word64
  pub blocks_small : q.reserved_blocks < word32

-- the fields that a loop over the visits leaves alone, or only lets fall
pub record Kept (q q' : Queue) : Type 0 where
  pub config : q'.config ≡ q.config
  pub leased : q'.leased_blocks ≡ q.leased_blocks
  pub owned : flags q'.blocks ≡ flags q.blocks
  pub bytes_le : q'.reserved_bytes ≤ q.reserved_bytes
  pub blocks_le : q'.reserved_blocks ≤ q.reserved_blocks

pub Kept-trans : {q r s : Queue} → Kept q r → Kept r s → Kept q s
Kept-trans h k = record {
  config = k.config ∙ h.config;
  leased = k.leased ∙ h.leased;
  owned = k.owned ∙ h.owned;
  bytes_le = omega arith;
  blocks_le = omega arith;
}

pub Kept-refl : (q : Queue) → Kept q q
Kept-refl q = record {
  config = refl;
  leased = refl;
  owned = refl;
  bytes_le = omega arith;
  blocks_le = omega arith;
}

-- A body keeps the balance, whatever the other visits hold.
abbrev pub KeepsBalance : (Queue → Visit → Queue × Visit) → Type 0
KeepsBalance body =
    (q : Queue) (v : Visit) (ob ok : ℕ)
    → Balanced q ob ok v.bytes v.remaining_blocks
    → Balanced (body q v).0 ob ok (body q v).1.bytes (body q v).1.remaining_blocks
      × Kept q (body q v).0

module _ (body : Queue → Visit → Queue × Visit) (keeps : KeepsBalance body) where
  pub each_visit-Balanced :
      (vs : List Visit) (q : Queue) (ob ok : ℕ)
      → Balanced q ob ok (sum_bytes vs) (sum_blocks vs)
      → let (q', vs') = each_visit body q vs in
        Balanced q' ob ok (sum_bytes vs') (sum_blocks vs') × Kept q q'
  unfolding each_visit
  each_visit-Balanced [] q ob ok h = (h, Kept-refl q)
  each_visit-Balanced (v ∷ vs) q ob ok h =
      let one = keeps q v (ob + sum_bytes vs) (ok + sum_blocks vs) (omega arith) in
      let rest =
        each_visit-Balanced vs (body q v).0 (ob + (body q v).1.bytes)
          (ok + (body q v).1.remaining_blocks) (omega (arith, one.0)) in
      (omega (arith, rest.0), Kept-trans one.1 rest.1)

pub terminate-Balanced : (result : Outcome) → KeepsBalance (λ q v. terminate q v result)
unfolding terminate
terminate-Balanced result q v ob ok h =
    (ground arith, ground (arith, flags-unref v.slices q.blocks))

add_slice-Balanced :
    (f : Frame) (a b : ℕ) (q : Queue) (v : Visit) (ob ok : ℕ)
    → Balanced q ob ok v.bytes v.remaining_blocks
    → 0 < v.remaining_blocks
    → Balanced
        (add_slice f a b q v).0
        ob
        ok
        (add_slice f a b q v).1.bytes
        (add_slice f a b q v).1.remaining_blocks
      × Kept q (add_slice f a b q v).0
unfolding add_slice
add_slice-Balanced f a b q v ob ok h p =
    let c = get_or q.blocks f.slot empty_block in
    (
      ground arith,
      ground (arith, flags-set q.blocks f.slot (record c { refs = add32 c.refs 1 }) refl),
    )

pub feed_visit-Balanced : (f : Frame) → KeepsBalance (feed_visit f)
unfolding feed_visit
feed_visit-Balanced f q v ob ok h =
    let t = terminate-Balanced invalid_gap q v ob ok h in
    let s = add_slice-Balanced f (later f.first v.start) (earlier f.end v.end) q v ob ok h in
    (ground (arith, t.0, s), ground (arith, t.1, s))

pub expire_visit-Balanced : (now : ℕ) → KeepsBalance (expire_visit now)
unfolding expire_visit
expire_visit-Balanced now q v ob ok h =
    let t = terminate-Balanced skip_age q v ob ok h in (ground (arith, t.0), ground (arith, t.1))

pub cancel_visit-Balanced : KeepsBalance cancel_visit
unfolding cancel_visit
cancel_visit-Balanced q v ob ok h =
    let t = terminate-Balanced cancelled q v ob ok h in (ground (arith, t.0), ground (arith, t.1))

pub close_visit-Balanced :
    (invalid : ℕ) → KeepsBalance (λ q v. ((close_visit q v invalid).1, (close_visit q v invalid).2))
unfolding close_visit
close_visit-Balanced invalid q v ob ok h =
    let t = terminate-Balanced invalid_gap q (record v { closed = true }) ob ok h in
    (ground (arith, t.0), ground (arith, t.1))
