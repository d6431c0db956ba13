-- ===== src/DdrRing/Ops.antt =====
-- The remaining operations of iiod/ddr-ring-core.c keep the invariant: serving the consumer,
-- discarding, failing and cancelling.
use libiio.Prelude.{
  ℕ, zero, suc, ◌-◌, ◌≤◌, ◌<◌, ◌≡◌, refl, true, false, not, ◌&&◌, ◌||◌, List, Option, none, some,
  ltb, ◌==◌, if◌then◌else◌, length, set, arith, get_or-set, length-set, Bool-cases, if_elim, inl,
  inr, ℤ, ok, is_negative, ecanceled, ◌⊎◌, ◌∙◌,
}
use libiio.DdrRing.{
  Slot, free, committed, State, running, failed, Ring, slot_at, advance, producer_abort,
  consumer_reserve, consumer_ready, taken_ring, discarded_ring, kept, keep_position,
  discard_pending, all_committed, free_slots, cancelled, reason_consumer_stall,
  reason_internal_error, reason_client_cancelled, reason_client_disconnected, fail, cancel,
  is_terminal, abort_reserved, state_eq,
}
use libiio.DdrRing.Inv.{
  offset, IsValid, offset-advance, offset-injective, taken_ring-IsValid, started-IsValid,
  producer_abort-IsValid, producer_slot,
}

-- the ring that `consumer_reserve` takes a slot from
abbrev pub served_ring : Ring → Ring
served_ring r = if state_eq r.state running then record r { consumer_started = true } else r

served_ring-IsValid : {r : Ring} → IsValid r → IsValid (served_ring r)
served_ring-IsValid {r} v = if_elim IsValid _ (λ _. started-IsValid v) (λ _. v)

-- A valid ring that is ready, with no slot out to the consumer, serves the slot at the consumer's
-- position, and its slot is then the consumer's.
pub consumer_reserve-ready :
    {r : Ring}
    → IsValid r
    → r.consumer_reserved ≡ false
    → consumer_ready r ≡ true
    → consumer_reserve r ≡ (ok, some r.consumer_position, taken_ring (served_ring r))
unfolding consumer_reserve consumer_ready
consumer_reserve-ready {r} v e h = ground (arith, v.slots_as r.consumer_position)

-- A valid ring that is not ready, or whose consumer holds a slot, reports an error, hands out no
-- slot and stays as it is.
pub consumer_reserve-not_ready :
    {r : Ring}
    → IsValid r
    → (r.consumer_reserved ≡ true) ⊎ (consumer_ready r ≡ false)
    → (is_negative (consumer_reserve r).0 ≡ true)
      × ((consumer_reserve r).1 ≡ none)
      × ((consumer_reserve r).2 ≡ r)
unfolding consumer_reserve consumer_ready
consumer_reserve-not_ready {r} v h = (ground arith, ground arith, ground arith)

pub ready_occupied : (r : Ring) → consumer_ready r ≡ true → 0 < r.occupied
unfolding consumer_ready
ready_occupied r h = ground arith

pub consumer_reserve-IsValid : {r : Ring} → IsValid r → IsValid (consumer_reserve r).2
consumer_reserve-IsValid {r} v = elim (Bool-cases r.consumer_reserved) [
  | inl e ↦ rw (consumer_reserve-not_ready v (inl e)).2 v
  | inr e ↦ elim (Bool-cases (consumer_ready r)) [
    | inl h ↦ rw (consumer_reserve-ready v e h) (
        taken_ring-IsValid (served_ring-IsValid v) (ground arith)
          (ground (arith, ready_occupied r h)))
    | inr h ↦ rw (consumer_reserve-not_ready v (inr h)).2 v
  ]
]

module _ (n : ℕ) where
  -- The first loop passes over committed slots.
  all_committed-true :
      (k p : ℕ) (slots : List Slot)
      → p < n
      → k ≤ n
      → ((i : ℕ) → i < n → offset n p i < k → slot_at slots i ≡ committed)
      → all_committed slots n p k ≡ true
  unfolding all_committed
  all_committed-true zero p slots hp hk h = refl
  all_committed-true (suc k) p slots hp hk h = ground (
    arith,
    h p hp,
    all_committed-true k (advance n p) slots (ground arith) (omega arith) (λ i hi q.
        h i hi (ground (arith, offset-advance n p hp i hi, offset-injective n p hp p i hp hi))),
  )

  length-free_slots : (k p : ℕ) (slots : List Slot) → length (free_slots slots n p k) ≡ length slots
  unfolding free_slots
  length-free_slots zero p slots = refl
  length-free_slots (suc k) p slots =
      length-free_slots k (advance n p) (set slots p free) ∙ length-set slots p free

  -- The second frees the slots that it passes over, and no other.
  slot_at-free_slots :
      (k p : ℕ) (slots : List Slot) (i : ℕ)
      → p < n
      → k ≤ n
      → length slots ≡ n
      → i < n
      → slot_at (free_slots slots n p k) i
        ≡ (if ltb (offset n p i) k then free else slot_at slots i)
  unfolding free_slots slot_at
  slot_at-free_slots zero p slots i hp hk hl hi = ground arith
  slot_at-free_slots (suc k) p slots i hp hk hl hi = ground (
    arith,
    slot_at-free_slots k (advance n p) (set slots p free) i (ground arith) (omega arith)
        (rw (length-set slots p free) hl) hi,
    get_or-set slots p i free free,
    offset-advance n p hp i hi,
    offset-injective n p hp p i hp hi,
  )

keep_in : {r : Ring} → IsValid r → keep_position r < r.slot_count
unfolding advance
keep_in {r} v = ground arith

-- the slots behind those that the consumer holds, seen from the first of them
keep_offset :
    {r : Ring} (i : ℕ)
    → IsValid r
    → i < r.slot_count
    → offset r.slot_count (keep_position r) i ≡ (
        if r.consumer_reserved
        then (if r.consumer_position == i
            then r.slot_count - 1
            else offset r.slot_count r.consumer_position i - 1)
        else offset r.slot_count r.consumer_position i)
keep_offset {r} i v hi =
    ground (arith, offset-advance r.slot_count r.consumer_position v.consumer_in i hi)

-- Without a frame in production, a running ring discards all but what the consumer holds.
pub discard_pending-eq :
    {r : Ring}
    → IsValid r
    → r.state ≡ running
    → r.producer_reserved ≡ false
    → discard_pending r ≡ (ok, some (r.occupied - kept r), discarded_ring r)
unfolding discard_pending
discard_pending-eq {r} v e f = ground (
  arith,
  all_committed-true r.slot_count (r.occupied - kept r) (keep_position r) r.slots (keep_in v)
      (ground arith)
      (λ i hi q. ground (
        arith,
        keep_offset i v hi,
        v.slots_as i hi,
        offset-injective r.slot_count r.consumer_position v.consumer_in r.consumer_position i,
      )),
)

pub discarded_ring-IsValid :
    {r : Ring} → IsValid r → r.producer_reserved ≡ false → IsValid (discarded_ring r)
unfolding discarded_ring
discarded_ring-IsValid {r} v f = record {
  sized = length-free_slots r.slot_count (r.occupied - kept r) (keep_position r) r.slots ∙ v.sized;
  small = v.small;
  consumer_in = v.consumer_in;
  producer_in = keep_in v;
  producer_at = ground (arith, keep_in v);
  room = ground arith;
  filling_room = ground arith;
  held_room = ground arith;
  filling_running = ground arith;
  failed_error = v.failed_error;
  slots_as = λ i hi. ground (
    arith,
    slot_at-free_slots r.slot_count (r.occupied - kept r) (keep_position r) r.slots i (keep_in v)
        (ground arith) v.sized hi,
    keep_offset i v hi,
    v.slots_as i hi,
    offset-injective r.slot_count r.consumer_position v.consumer_in r.consumer_position i,
  );
}

pub discard_pending-IsValid : {r : Ring} → IsValid r → IsValid (discard_pending r).2
unfolding discard_pending
discard_pending-IsValid {r} v =
    if_elim (λ (s : ℤ × Option ℕ × Ring). IsValid s.2)
      (not (state_eq r.state running) || r.producer_reserved) (λ _. v)
      (λ e.
        if_elim (λ (s : ℤ × Option ℕ × Ring). IsValid s.2) (ltb r.occupied (kept r)) (λ _. v)
          (λ _.
            if_elim (λ (s : ℤ × Option ℕ × Ring). IsValid s.2)
              (not (all_committed r.slots r.slot_count (keep_position r) (r.occupied - kept r)))
              (λ _. v) (λ _. discarded_ring-IsValid v (ground arith))))

-- Aborting leaves no frame in production.
abort_reserved_lem :
    {r : Ring}
    → IsValid r
    → IsValid (abort_reserved r) × ((abort_reserved r).producer_reserved ≡ false)
unfolding abort_reserved
abort_reserved_lem {r} v = (
  if_elim IsValid r.producer_reserved (λ _. producer_abort-IsValid v) (λ _. v),
  unfold producer_abort in ground (arith, producer_slot v),
)

module _ {r : Ring} (v : IsValid r) (e : r.producer_reserved ≡ false) (s : State) (reason : ℕ)
    (error : ℤ) (h : is_negative error ≡ true) where
  stopped-IsValid : IsValid (record r { state = s; terminal_reason = reason; error_code = error })
  stopped-IsValid = record {
    sized = v.sized;
    small = v.small;
    consumer_in = v.consumer_in;
    producer_in = v.producer_in;
    producer_at = v.producer_at;
    room = v.room;
    filling_room = v.filling_room;
    held_room = v.held_room;
    filling_running = ground arith;
    failed_error = λ _. h;
    slots_as = v.slots_as;
  }

pub fail-IsValid : {r : Ring} (reason : ℕ) (error : ℤ) → IsValid r → IsValid (fail r reason error).1
unfolding fail
fail-IsValid {r} reason error v =
    if_elim (λ (s : ℤ × Ring). IsValid s.1)
      (ltb reason reason_consumer_stall
        || ltb reason_internal_error reason
        || not (is_negative error))
      (λ _. v)
      (λ e.
        if_elim (λ (s : ℤ × Ring). IsValid s.1) (is_terminal r) (λ _. v)
          (λ _.
            stopped-IsValid (abort_reserved_lem v).0 (abort_reserved_lem v).1 failed reason error
              (ground arith)))

pub cancel-IsValid : {r : Ring} (reason : ℕ) → IsValid r → IsValid (cancel r reason).1
unfolding cancel
cancel-IsValid {r} reason v =
    if_elim (λ (s : ℤ × Ring). IsValid s.1)
      (not (reason == reason_client_cancelled) && not (reason == reason_client_disconnected))
      (λ _. v)
      (λ e.
        if_elim (λ (s : ℤ × Ring). IsValid s.1) (is_terminal r) (λ _. v)
          (λ _.
            stopped-IsValid (abort_reserved_lem v).0 (abort_reserved_lem v).1 cancelled reason
              ecanceled refl))
