-- ===== src/VisitQueue/Feed.antt =====
-- `spf_visit_queue_feed` of iiod/spf-visit-queue.c: a DMA block is leased and cut into slices for
-- the visits that it meets.
use libiio.Prelude.{
  ℕ, zero, suc, ◌+◌, ◌-◌, ◌*◌, Bool, true, false, not, ◌&&◌, ◌||◌, List, [], ◌∷◌, ◌++◌, Option,
  none, some, ltb, leb, ◌==◌, if◌then◌else◌, length, get_or, set, add64, sub64, add32, sub32, max64,
  ℤ, ok, einval, eshutdown, erange, eagain, eexist, enospc,
}
use libiio.VisitQueue.{
  complete, invalid_gap, is_admitted, Slice, Block, Visit, Queue, empty_block, max_blocks,
  terminate, over_visits,
}

-- the loop that looks for the token and for a free block; `none` is -EEXIST
unfoldable pub scan_blocks : ℕ → ℕ → ℕ → List Block → ℕ → Option ℕ
scan_blocks token i zero bs slot = some slot
scan_blocks token i (suc n) [] slot = some slot
scan_blocks token i (suc n) (b ∷ bs) slot =
    let rest = scan_blocks token (i + 1) n bs (if not b.owned then i else slot) in
    if b.owned && b.token == token then none else rest

-- the later of two counters, and the earlier
abbrev pub later : ℕ → ℕ → ℕ
later a b = if ltb b a then a else b

abbrev pub earlier : ℕ → ℕ → ℕ
earlier a b = if ltb a b then a else b

-- a DMA block as `feed` sees it: its slot among `blocks`, and the samples [first, end)
pub record Frame : Type 0 where
  pub slot : ℕ
  pub token : ℕ
  pub address : ℕ
  pub first : ℕ
  pub end : ℕ

-- the last part of the loop's body: the samples [a, b) become a slice of the visit
unfoldable pub add_slice : Frame → ℕ → ℕ → Queue → Visit → Queue × Visit
add_slice f a b q v =
    let k = q.config.bytes_per_sample in
    let s : Slice = record {
      token = f.token;
      address = f.address;
      offset = (a - f.first) * k;
      bytes = (b - a) * k;
    } in
    let block = get_or q.blocks f.slot empty_block in
    let left = sub32 v.remaining_blocks 1 in
    let full = b == v.end in
    (
      record q {
        blocks = set q.blocks f.slot (record block { refs = add32 block.refs 1 });
        reserved_blocks = sub32 (sub32 q.reserved_blocks 1) (if full then left else 0);
      },
      record v {
        slices = v.slices ++ ((f.slot, s) ∷ []);
        remaining_blocks = (if full then 0 else left);
        next = b;
        result = (if full && v.closed then complete else v.result);
      },
    )

-- the body of the loop over the visits
unfoldable pub feed_visit : Frame → Queue → Visit → Queue × Visit
unfolding add_slice terminate
feed_visit f q v =
    let a = later f.first v.start in
    let b = earlier f.end v.end in
    if not (is_admitted v.result)
    then (q, v)
    else if ltb v.next f.first && ltb v.next v.end
    then terminate q v invalid_gap
    else if leb b a
    then (q, v)
    else if not (a == v.next) || v.remaining_blocks == 0 || leb 64 (length v.slices)
    then terminate q v invalid_gap
    else add_slice f a b q v

-- is the last visit there and not bound?
abbrev pub awaits_bind : List Visit → Bool
awaits_bind [] = false
awaits_bind (v ∷ []) = not v.bound
awaits_bind (v ∷ w ∷ vs) = awaits_bind (w ∷ vs)

-- what `feed` writes before its loop
unfoldable pub lease : Queue → Frame → Queue
lease q f =
    let leased = add32 q.leased_blocks 1 in
    record q {
      blocks =
          set q.blocks f.slot
            (record { token = f.token; address = f.address; refs = 0; owned = true });
      leased_blocks = leased;
      high_water_blocks = (if ltb q.high_water_blocks leased then leased else q.high_water_blocks);
      missing_samples =
          (if q.have_source
            then add64 q.missing_samples (sub64 f.first q.last_source_end)
            else q.missing_samples);
      last_source_end = f.end;
      have_source = true;
    }

abbrev pub frame : ℕ → ℕ → ℕ → ℕ → ℕ → Frame
frame slot token address first samples = record {
  slot = slot;
  token = token;
  address = address;
  first = first;
  end = first + samples;
}

unfoldable pub feed : Queue → ℕ → ℕ → ℕ → ℕ → ℤ × Queue
unfolding scan_blocks lease feed_visit over_visits
feed q token address first samples =
    if address == 0
      || token == 0
      || not (samples == q.config.block_samples)
      || ltb (max64 - samples) first
    then (einval, q)
    else if q.cancelled
    then (eshutdown, q)
    else if q.have_source && ltb first q.last_source_end
    then (erange, q)
    else if awaits_bind q.visits
    then (eagain, q)
    else elim (scan_blocks token 0 q.config.block_count q.blocks max_blocks) [
      | none ↦ (eexist, q)
      | some slot ↦
          if slot == max_blocks
          then (enospc, q)
          else (let f = frame slot token address first samples in
              (ok, over_visits (feed_visit f) (lease q f)))
    ]
