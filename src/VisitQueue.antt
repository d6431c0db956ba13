-- ===== src/VisitQueue.antt =====
-- iiod/spf-visit-queue.c: capture windows ("visits") that are reserved, bound to source time, fed
-- with DMA blocks and handed to the transport. Here the types, the configuration and the parts that
-- the operations of VisitQueue.Ops share.
-- The circular array of visits is the list of its used entries, oldest first; the arrays of a visit are the list of their first `slice_count` entries.
pub mod Feed
pub mod Ops
pub mod Sums
pub mod Accounts
pub mod Books
pub mod Step
pub mod Cover
pub mod Complete
mod Tests
use libiio.Prelude.{
  ℕ, zero, suc, ◌+◌, ◌-◌, ◌*◌, ◌/◌, ◌%◌, Bool, true, false, not, ◌&&◌, ◌||◌, List, [], ◌∷◌, ◌++◌,
  Option, none, some, ltb, leb, ◌==◌, if◌then◌else◌, length, get_or, set, replicate, add64, sub64,
  add32, sub32, max64, ℤ, is_zero, ok,
}

-- `enum spf_visit_result`
pub data Outcome : Type 0 where
  admitted complete skip_capacity skip_age invalid_gap cancelled : Outcome

abbrev pub is_admitted : Outcome → Bool
is_admitted admitted = true
is_admitted _ = false

-- `struct spf_visit_queue_config`
pub record Config : Type 0 where
  pub block_count : ℕ
  pub headroom_blocks : ℕ
  pub maximum_visits : ℕ
  pub block_samples : ℕ
  pub source_rate_hz : ℕ
  pub maximum_bytes : ℕ
  pub maximum_age_ticks : ℕ
  pub drain_bytes_per_second : ℕ
  pub bytes_per_sample : ℕ
  pub maximum_visit_ms : ℕ
  pub preserve_partial : Bool

-- `struct spf_visit_slice`; an address is a number, and NULL is 0
pub record Slice : Type 0 where
  pub token : ℕ
  pub address : ℕ
  pub offset : ℕ
  pub bytes : ℕ

-- `struct block`
pub record Block : Type 0 where
  pub token : ℕ
  pub address : ℕ
  pub refs : ℕ
  pub owned : Bool

-- `struct visit`: an entry of `slices` is that of `block` with that of `slices`
pub record Visit : Type 0 where
  pub id : ℕ
  pub reserved_at : ℕ
  pub start : ℕ
  pub end : ℕ
  pub next : ℕ
  pub bytes : ℕ
  pub samples : ℕ
  pub remaining_blocks : ℕ
  pub slices : List (ℕ × Slice)
  pub result : Outcome
  pub bound : Bool
  pub closed : Bool
  pub sending : Bool

-- `struct spf_visit_queue`; `stats.visits` is the length of `visits`
pub record Queue : Type 0 where
  pub config : Config
  pub blocks : List Block
  pub visits : List Visit
  pub reserved_bytes : ℕ
  pub high_water_bytes : ℕ
  pub missing_samples : ℕ
  pub leased_blocks : ℕ
  pub reserved_blocks : ℕ
  pub high_water_blocks : ℕ
  pub last_source_end : ℕ
  pub last_reserved_id : ℕ
  pub last_valid_end : ℕ
  pub have_source : Bool
  pub have_id : Bool
  pub cancelled : Bool

abbrev pub empty_block : Block
empty_block = record { token = 0; address = 0; refs = 0; owned = false }

abbrev pub max_blocks : ℕ
max_blocks = 64

abbrev pub max_visits : ℕ
max_visits = 64

-- `spf_scan_rate_valid` of iiod/spf-scan-rate.h
unfoldable pub scan_rate_valid : ℕ → Bool
scan_rate_valid rate = leb 520833 rate && leb rate 61440000

-- the tests of `spf_visit_queue_create`, all of which refuse with -EINVAL
pub blocks_valid : Config → Bool
blocks_valid c = not (
    ltb c.block_count 4
    || ltb 64 c.block_count
    || c.headroom_blocks == 0
    || leb c.block_count c.headroom_blocks
    || c.maximum_visits == 0
    || ltb max_visits c.maximum_visits
    || c.block_samples == 0
    || ltb 1000000 c.block_samples)

pub rates_valid : Config → Bool
unfolding scan_rate_valid
rates_valid c = not (
    not (scan_rate_valid c.source_rate_hz)
    || (not (c.bytes_per_sample == 4) && not (c.bytes_per_sample == 8))
    || c.maximum_visit_ms == 0
    || ltb 360 c.maximum_visit_ms)

pub budgets_valid : Config → Bool
budgets_valid c = not (
    c.maximum_bytes == 0
    || ltb 200000000 c.maximum_bytes
    || c.maximum_age_ticks == 0
    || ltb (c.source_rate_hz * 10) c.maximum_age_ticks
    || c.drain_bytes_per_second == 0
    || ltb 1000000000 c.drain_bytes_per_second)

pub config_valid : Config → Bool
unfolding blocks_valid rates_valid budgets_valid
config_valid c = blocks_valid c && rates_valid c && budgets_valid c

-- `calloc` gives a queue of zeros.
pub fresh : Config → Queue
fresh c = record {
  config = c;
  blocks = replicate max_blocks empty_block;
  visits = [];
  reserved_bytes = 0;
  high_water_bytes = 0;
  missing_samples = 0;
  leased_blocks = 0;
  reserved_blocks = 0;
  high_water_blocks = 0;
  last_source_end = 0;
  last_reserved_id = 0;
  last_valid_end = 0;
  have_source = false;
  have_id = false;
  cancelled = false;
}

pub create : Config → Option Queue
create c = if config_valid c then some (fresh c) else none

-- `for (i = 0; i < block_count; i++)` of `spf_visit_queue_reap`, over the first `n` blocks. The
-- arguments `error` and `leased` are `first_error` and `stats.leased_blocks`; `release` is the
-- callback, as a function of the token that it is given in this call.
pub reap_blocks : (ℕ → ℤ) → ℕ → List Block → ℤ → ℕ → ℤ × List Block × ℕ
reap_blocks release zero blocks error leased = (error, blocks, leased)
reap_blocks release (suc n) [] error leased = (error, [], leased)
reap_blocks release (suc n) (b ∷ bs) error leased =
    let kept = not b.owned || not (b.refs == 0) in
    let ret = release b.token in
    let gone = not kept && is_zero ret in
    let error' = if not kept && not (is_zero ret) && is_zero error then ret else error in
    let (e, bs', l) = reap_blocks release n bs error' (if gone then sub32 leased 1 else leased) in
    (e, (if gone then empty_block else b) ∷ bs', l)

pub reap : (ℕ → ℤ) → Queue → ℤ × Queue
unfolding reap_blocks
reap release q =
    let (e, bs, l) = reap_blocks release q.config.block_count q.blocks ok q.leased_blocks in
    (e, record q { blocks = bs; leased_blocks = l })

-- `--q->blocks[v->block[i]].refs` for each slice
pub unref : List Block → List (ℕ × Slice) → List Block
unref blocks [] = blocks
unref blocks ((i, s) ∷ r) =
    let b = get_or blocks i empty_block in
    unref (set blocks i (record b { refs = sub32 b.refs 1 })) r

-- `discard`: the first result is `*q`, the second `*v`.
pub discard : Queue → Visit → Outcome → Queue × Visit
unfolding unref
discard q v result = (
  record q {
    blocks = unref q.blocks v.slices;
    reserved_blocks = sub32 q.reserved_blocks v.remaining_blocks;
    reserved_bytes = sub64 q.reserved_bytes v.bytes;
  },
  record v { slices = []; remaining_blocks = 0; bytes = 0; result = result; closed = true },
)

pub terminate : Queue → Visit → Outcome → Queue × Visit
unfolding discard
terminate q v result = if not q.config.preserve_partial then discard q v result else (
  record q { reserved_blocks = sub32 q.reserved_blocks v.remaining_blocks },
  record v { remaining_blocks = 0; end = v.next; result = result; closed = true },
)

-- `for (i = 0; i < stats.visits; i++)` with a body that changes `*q` and the visit `*v`; the field
-- `visits` of the queue is written at the end.
pub each_visit : (Queue → Visit → Queue × Visit) → Queue → List Visit → Queue × List Visit
each_visit body q [] = (q, [])
each_visit body q (v ∷ vs) =
    let (q', v') = body q v in let (q'', vs') = each_visit body q' vs in (q'', v' ∷ vs')

pub over_visits : (Queue → Visit → Queue × Visit) → Queue → Queue
unfolding each_visit
over_visits body q = let (q', vs) = each_visit body q q.visits in record q' { visits = vs }
