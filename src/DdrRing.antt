-- ===== src/DdrRing.antt =====
-- iiod/ddr-ring-core.c: the bounded ring of DMA frames between one producer and one consumer.
-- A function that updates `*ring` returns its status and the new ring. The model starts behind
-- the tests of the pointers for NULL.
pub mod Inv
pub mod Ops
pub mod Step
pub mod Fifo
pub mod Progress
pub mod Continuity
pub mod Unwrapped
mod Tests
use libiio.Prelude.{
  ℕ, zero, suc, ◌+◌, ◌-◌, ◌/◌, Bool, true, false, not, ◌&&◌, ◌||◌, List, Option, none, some, ltb,
  leb, ◌==◌, if◌then◌else◌, get_or, set, replicate, add64, max64, ℤ, is_zero, is_negative, ok, eio,
  eagain, ebusy, einval, enodata, eoverflow, eshutdown, ecanceled,
}

-- `enum iiod_ddr_ring_slot_state`
pub data Slot : Type 0 where
  free producer committed consumer : Slot

abbrev pub slot_eq : Slot → Slot → Bool
slot_eq free free = true
slot_eq producer producer = true
slot_eq committed committed = true
slot_eq consumer consumer = true
slot_eq _ _ = false

-- `enum spf_ddr_ring_state`
pub data State : Type 0 where
  off reserved running draining complete failed cancelled : State

abbrev pub state_eq : State → State → Bool
state_eq off off = true
state_eq reserved reserved = true
state_eq running running = true
state_eq draining draining = true
state_eq complete complete = true
state_eq failed failed = true
state_eq cancelled cancelled = true
state_eq _ _ = false

-- `enum spf_ddr_ring_reason`, a plain number in the ring
abbrev pub reason_target_complete : ℕ
reason_target_complete = 1

abbrev pub reason_client_cancelled : ℕ
reason_client_cancelled = 2

abbrev pub reason_client_disconnected : ℕ
reason_client_disconnected = 3

abbrev pub reason_consumer_stall : ℕ
reason_consumer_stall = 4

abbrev pub reason_internal_error : ℕ
reason_internal_error = 8

-- `struct iiod_ddr_ring_core`
pub record Ring : Type 0 where
  pub slots : List Slot
  pub slot_count : ℕ
  pub producer_position : ℕ
  pub consumer_position : ℕ
  pub occupied : ℕ
  pub prefill_frames : ℕ
  pub low_water_frames : ℕ
  pub target_frames : ℕ
  pub produced_frames : ℕ
  pub consumed_frames : ℕ
  pub high_water_frames : ℕ
  pub wrap_count : ℕ
  pub last_contiguous : ℕ
  pub first_unavailable : ℕ
  pub expected_sample : ℕ
  pub state : State
  pub terminal_reason : ℕ
  pub error_code : ℤ
  pub producer_reserved : Bool
  pub consumer_reserved : Bool
  pub consumer_started : Bool
  pub last_contiguous_valid : Bool
  pub first_unavailable_valid : Bool
  pub expected_sample_valid : Bool
  pub continuity_broken : Bool

pub slot_at : List Slot → ℕ → Slot
slot_at slots i = get_or slots i free

state_allows_drain : State → Bool
state_allows_drain s = state_eq s running || state_eq s draining || state_eq s failed

-- `if (++position == slot_count) position = 0;`
unfoldable pub advance : ℕ → ℕ → ℕ
advance count position = if position + 1 == count then 0 else position + 1

init_prefill : ℕ → ℕ → ℕ
init_prefill count target = if not (target == 0) && ltb target count then target else count

init_low_water : ℕ → ℕ → ℕ
init_low_water count target = if not (target == 0) && leb target count then 0 else count / 2

-- The slots are the caller's array of `count` entries, which `memset` makes free.
pub fresh : ℕ → ℕ → Ring
unfolding init_prefill init_low_water
fresh count target = record {
  slots = replicate count free;
  slot_count = count;
  producer_position = 0;
  consumer_position = 0;
  occupied = 0;
  prefill_frames = init_prefill count target;
  low_water_frames = init_low_water count target;
  target_frames = target;
  produced_frames = 0;
  consumed_frames = 0;
  high_water_frames = 0;
  wrap_count = 0;
  last_contiguous = 0;
  first_unavailable = 0;
  expected_sample = 0;
  state = reserved;
  terminal_reason = 0;
  error_code = ok;
  producer_reserved = false;
  consumer_reserved = false;
  consumer_started = false;
  last_contiguous_valid = false;
  first_unavailable_valid = false;
  expected_sample_valid = false;
  continuity_broken = false;
}

unfoldable pub init : ℕ → ℕ → Option Ring
unfolding fresh
init count target = if count == 0 then none else some (fresh count target)

pub start : Ring → ℤ × Ring
start r = if state_eq r.state reserved then (ok, record r { state = running }) else (einval, r)

pub start_extension : Ring → ℤ × Ring
unfolding start
start_extension r =
    let (ret, r') = start r in
    if is_zero ret
    then (ok, record r' { prefill_frames = 0; low_water_frames = 0; consumer_started = true })
    else (ret, r')

-- The option is what goes out through `slot`.
pub producer_reserve : Ring → ℤ × Option ℕ × Ring
unfolding slot_at
producer_reserve r =
    if not (state_eq r.state running)
    then (eshutdown, none, r)
    else if r.producer_reserved
    then (ebusy, none, r)
    else if not (r.target_frames == 0) && leb r.target_frames r.produced_frames
    then (enodata, none, r)
    else if not (slot_eq (slot_at r.slots r.producer_position) free)
    then (eagain, none, r)
    else (
      ok,
      some r.producer_position,
      record r { slots = set r.slots r.producer_position producer; producer_reserved = true },
    )

-- the state after `produced_frames++`
commit_state : Ring → ℕ → State
commit_state r produced =
    if not (r.target_frames == 0) && produced == r.target_frames then draining else r.state

-- what `producer_commit` writes, behind its tests
pub committed_ring : Ring → Ring
unfolding advance commit_state
committed_ring r =
    let occupied = r.occupied + 1 in
    let produced = add64 r.produced_frames 1 in
    record r {
      slots = set r.slots r.producer_position committed;
      producer_reserved = false;
      occupied = occupied;
      produced_frames = produced;
      high_water_frames =
          (if ltb r.high_water_frames occupied then occupied else r.high_water_frames);
      producer_position = advance r.slot_count r.producer_position;
      wrap_count =
          (if r.producer_position + 1 == r.slot_count then add64 r.wrap_count 1 else r.wrap_count);
      state = commit_state r produced;
    }

pub producer_commit : Ring → ℤ × Ring
unfolding slot_at committed_ring
producer_commit r =
    if not r.producer_reserved
    then (einval, r)
    else if not (slot_eq (slot_at r.slots r.producer_position) producer)
    then (eio, r)
    else (ok, committed_ring r)

pub producer_abort : Ring → ℤ × Ring
unfolding slot_at
producer_abort r =
    if not r.producer_reserved
    then (einval, r)
    else if not (slot_eq (slot_at r.slots r.producer_position) producer)
    then (eio, r)
    else (ok, record r { slots = set r.slots r.producer_position free; producer_reserved = false })

-- what `consumer_reserve` writes, behind its tests
pub taken_ring : Ring → Ring
taken_ring r = record r {
  slots = set r.slots r.consumer_position consumer;
  consumer_reserved = true;
}

-- the last part of `consumer_reserve`, from the test of the slot on
take_slot : Ring → ℤ × Option ℕ × Ring
unfolding slot_at taken_ring
take_slot r =
    if not (slot_eq (slot_at r.slots r.consumer_position) committed)
    then (eio, none, r)
    else (ok, some r.consumer_position, taken_ring r)

-- The flag `consumer_started` is set before the slot is tested.
pub consumer_reserve : Ring → ℤ × Option ℕ × Ring
unfolding state_allows_drain take_slot
consumer_reserve r =
    if not (state_allows_drain r.state)
    then ((if state_eq r.state complete then enodata else eshutdown), none, r)
    else if r.consumer_reserved
    then (ebusy, none, r)
    else if r.occupied == 0
    then (
      (if state_eq r.state draining
          then enodata
          else if state_eq r.state failed
          then (if is_zero r.error_code then eio else r.error_code)
          else eagain),
      none,
      r,
    )
    else if state_eq r.state running
    then (if not r.consumer_started
        then (if ltb r.occupied r.prefill_frames
            then (eagain, none, r)
            else take_slot (record r { consumer_started = true }))
        else if leb r.occupied r.low_water_frames
        then (eagain, none, r)
        else take_slot r)
    else take_slot r

pub consumer_ready : Ring → Bool
unfolding state_allows_drain
consumer_ready r =
    if not (state_allows_drain r.state) || r.occupied == 0
    then false
    else if not (state_eq r.state running)
    then true
    else if not r.consumer_started
    then leb r.prefill_frames r.occupied
    else ltb r.low_water_frames r.occupied

pub prefix_complete : Ring → Bool
prefix_complete r = leb r.prefill_frames r.produced_frames

pub mark_unavailable : Ring → ℕ → Ring
mark_unavailable r observed = if r.first_unavailable_valid then r else record r {
  first_unavailable = (if r.expected_sample_valid then r.expected_sample else observed);
  first_unavailable_valid = true;
  continuity_broken = true;
}

-- the end of `observe_samples`, once the gap has been marked
record_end : Ring → ℕ → Ring
record_end r end = record r {
  last_contiguous = (if r.continuity_broken then r.last_contiguous else end);
  last_contiguous_valid = (if r.continuity_broken then r.last_contiguous_valid else true);
  expected_sample = end;
  expected_sample_valid = true;
}

-- The sum is below 2 ^ 64 behind its test.
pub observe_samples : Ring → ℕ → ℕ → ℤ × Ring
unfolding mark_unavailable record_end
observe_samples r first samples =
    if samples == 0
    then (einval, r)
    else if ltb (max64 - samples) first
    then (eoverflow, r)
    else let gap = r.expected_sample_valid && not (first == r.expected_sample) in
      let marked = if gap then mark_unavailable r first else r in
      (ok, record_end marked (first + samples))

-- what `consumer_release` writes, behind its tests
pub released_ring : Ring → Ring
unfolding advance
released_ring r =
    let occupied = r.occupied - 1 in
    let done = state_eq r.state draining && occupied == 0 in
    record r {
      slots = set r.slots r.consumer_position free;
      consumer_reserved = false;
      occupied = occupied;
      consumed_frames = add64 r.consumed_frames 1;
      consumer_position = advance r.slot_count r.consumer_position;
      state = (if done then complete else r.state);
      terminal_reason = (if done then reason_target_complete else r.terminal_reason);
    }

pub consumer_release : Ring → ℤ × Ring
unfolding slot_at released_ring
consumer_release r =
    if not r.consumer_reserved || r.occupied == 0
    then (einval, r)
    else if not (slot_eq (slot_at r.slots r.consumer_position) consumer)
    then (eio, r)
    else (ok, released_ring r)

-- the first loop of `discard_pending`: are `n` slots from `position` on committed?
pub all_committed : List Slot → ℕ → ℕ → ℕ → Bool
unfolding slot_at advance
all_committed slots count position zero = true
all_committed slots count position (suc n) =
    if slot_eq (slot_at slots position) committed
    then all_committed slots count (advance count position) n
    else false

-- its second loop
pub free_slots : List Slot → ℕ → ℕ → ℕ → List Slot
unfolding advance
free_slots slots count position zero = slots
free_slots slots count position (suc n) =
    free_slots (set slots position free) count (advance count position) n

-- how many frames the consumer holds
abbrev pub kept : Ring → ℕ
kept r = if r.consumer_reserved then 1 else 0

-- the position behind those
abbrev pub keep_position : Ring → ℕ
keep_position r =
    if r.consumer_reserved then advance r.slot_count r.consumer_position else r.consumer_position

-- what `discard_pending` writes, behind its tests
pub discarded_ring : Ring → Ring
unfolding free_slots advance
discarded_ring r = record r {
  slots = free_slots r.slots r.slot_count (keep_position r) (r.occupied - kept r);
  occupied = kept r;
  producer_position = keep_position r;
}

-- The option is what goes out through `discarded_frames`.
pub discard_pending : Ring → ℤ × Option ℕ × Ring
unfolding advance all_committed discarded_ring
discard_pending r =
    if not (state_eq r.state running) || r.producer_reserved
    then (ebusy, none, r)
    else if ltb r.occupied (kept r)
    then (eio, none, r)
    else if not (all_committed r.slots r.slot_count (keep_position r) (r.occupied - kept r))
    then (eio, none, r)
    else (ok, some (r.occupied - kept r), discarded_ring r)

pub is_terminal : Ring → Bool
is_terminal r =
    state_eq r.state complete
    || state_eq r.state cancelled
    || (state_eq r.state failed && r.occupied == 0 && not r.consumer_reserved)

-- `if (producer_reserved) (void)producer_abort(ring);`
abort_reserved : Ring → Ring
unfolding producer_abort
abort_reserved r = if r.producer_reserved then (producer_abort r).1 else r

pub fail : Ring → ℕ → ℤ → ℤ × Ring
unfolding is_terminal abort_reserved
fail r reason error =
    if ltb reason reason_consumer_stall
      || ltb reason_internal_error reason
      || not (is_negative error)
    then (einval, r)
    else if is_terminal r
    then (eshutdown, r)
    else (
      ok,
      record (abort_reserved r) { state = failed; terminal_reason = reason; error_code = error },
    )

pub cancel : Ring → ℕ → ℤ × Ring
unfolding is_terminal abort_reserved
cancel r reason =
    if not (reason == reason_client_cancelled) && not (reason == reason_client_disconnected)
    then (einval, r)
    else if is_terminal r
    then (eshutdown, r)
    else (
      ok,
      record (abort_reserved r) {
        state = cancelled;
        terminal_reason = reason;
        error_code = ecanceled;
      },
    )

pub complete_extension : Ring → ℤ × Ring
complete_extension r =
    if not (state_eq r.state running)
    then (einval, r)
    else if not (r.occupied == 0) || r.producer_reserved || r.consumer_reserved
    then (ebusy, r)
    else (
      ok,
      record r { state = complete; terminal_reason = reason_target_complete; error_code = ok },
    )
