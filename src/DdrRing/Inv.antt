-- ===== src/DdrRing/Inv.antt =====
-- The representation invariant of the ring of iiod/ddr-ring-core.c, and that every operation of
-- the program keeps it.
use libiio.Prelude.{
  ℕ, ◌+◌, ◌-◌, ◌≤◌, ◌<◌, ◌≡◌, Bool, true, false, ◌&&◌, some, ltb, leb, ◌==◌, if◌then◌else◌, length,
  arith, get_or-set, length-set, Bool-cases, if_elim, inl, inr, subst, get_or-replicate,
  length-replicate, ℤ, is_negative, ok, einval, word64,
}
use libiio.DdrRing.{
  Slot, free, producer, committed, consumer, running, failed, Ring, slot_at, advance, init, fresh,
  start, start_extension, producer_reserve, producer_commit, producer_abort, consumer_release,
  taken_ring, committed_ring, released_ring, complete_extension,
}

-- how far behind the consumer's position an index lies, going round
abbrev pub offset : ℕ → ℕ → ℕ → ℕ
offset count c i = if leb c i then i - c else i + count - c

-- what the positions and flags say that the slot at an offset is
abbrev pub expected : Bool → Bool → ℕ → ℕ → Slot
expected held filling occupied k =
    if held && k == 0
    then consumer
    else if ltb k occupied
    then committed
    else if filling && k == occupied
    then producer
    else free

pub record IsValid (r : Ring) : Type 0 where
  pub sized : length r.slots ≡ r.slot_count
  pub small : r.slot_count < word64
  pub consumer_in : r.consumer_position < r.slot_count
  pub producer_in : r.producer_position < r.slot_count
  pub producer_at :
      offset r.slot_count r.consumer_position r.producer_position
      ≡ (if r.occupied == r.slot_count then 0 else r.occupied)
  pub room : r.occupied ≤ r.slot_count
  pub filling_room : r.producer_reserved ≡ true → r.occupied < r.slot_count
  pub held_room : r.consumer_reserved ≡ true → 0 < r.occupied
  pub filling_running : r.producer_reserved ≡ true → r.state ≡ running
  pub failed_error : r.state ≡ failed → is_negative r.error_code ≡ true
  pub slots_as :
      (i : ℕ)
      → i < r.slot_count
      → slot_at r.slots i
        ≡ expected r.consumer_reserved r.producer_reserved r.occupied
            (offset r.slot_count r.consumer_position i)

fresh-IsValid : (count target : ℕ) → 0 < count → count < word64 → IsValid (fresh count target)
unfolding fresh slot_at
fresh-IsValid count target p h = record {
  sized = length-replicate count free;
  small = h;
  consumer_in = p;
  producer_in = p;
  producer_at = ground arith;
  room = ground arith;
  filling_room = ground arith;
  held_room = ground arith;
  filling_running = ground arith;
  failed_error = ground arith;
  slots_as = λ i q. rw (get_or-replicate count i free) (ground arith);
}

pub init-IsValid :
    (count target : ℕ) {r : Ring} → count < word64 → init count target ≡ some r → IsValid r
unfolding init
init-IsValid count target h e = elim (Bool-cases (count == 0)) [
  | inl z ↦ cc (rw z at e)
  | inr nz ↦ subst IsValid (ground arith) (fresh-IsValid count target (ground arith) h)
]

module _ (n c : ℕ) (c_in : c < n) where
  pub offset-injective : (i j : ℕ) → i < n → j < n → offset n c i ≡ offset n c j → i ≡ j
  offset-injective i j p q e = ground arith

  -- Filling a slot puts it behind the occupied ones.
  commit_expected :
      (held : Bool) (o p i : ℕ) (s : Slot)
      → p < n
      → o < n
      → i < n
      → offset n c p ≡ o
      → (held ≡ true → 0 < o)
      → s ≡ expected held true o (offset n c i)
      → (if p == i then committed else s) ≡ expected held false (o + 1) (offset n c i)
  commit_expected held o p i s hp ho hi e k h = elim (Bool-cases (p == i)) [
    | inl same ↦ ground arith
    | inr other ↦ ground (arith, offset-injective p i)
  ]

  -- Releasing the first slot moves the others up by one.
  pub offset-advance :
      (i : ℕ) → i < n → offset n (advance n c) i ≡ (if c == i then n - 1 else offset n c i - 1)
  unfolding advance
  offset-advance i hi = ground arith

  release_expected :
      (filling : Bool) (o i : ℕ) (s : Slot)
      → 0 < o
      → o ≤ n
      → (filling ≡ true → o < n)
      → i < n
      → s ≡ expected true filling o (offset n c i)
      → (if c == i then free else s) ≡ expected false filling (o - 1) (offset n (advance n c) i)
  release_expected filling o i s ho hn k hi h =
      rw (offset-advance i hi) (elim (Bool-cases (c == i)) [
        | inl same ↦ ground arith
        | inr other ↦ ground (arith, offset-injective c i)
      ])

pub start-IsValid : {r : Ring} → IsValid r → IsValid (start r).1
unfolding start
start-IsValid {r} v = grind arith

pub start_extension-IsValid : {r : Ring} → IsValid r → IsValid (start_extension r).1
unfolding start_extension
start_extension-IsValid {r} v = grind arith

pub complete_extension-IsValid : {r : Ring} → IsValid r → IsValid (complete_extension r).1
unfolding complete_extension
complete_extension-IsValid {r} v = grind arith

pub producer_reserve-IsValid : {r : Ring} → IsValid r → IsValid (producer_reserve r).2
unfolding producer_reserve slot_at
producer_reserve-IsValid {r} v = record {
  sized = ground (arith, length-set r.slots r.producer_position producer);
  small = ground arith;
  consumer_in = ground arith;
  producer_in = ground arith;
  producer_at = ground arith;
  room = ground arith;
  filling_room = ground (arith, v.slots_as r.producer_position);
  held_room = ground arith;
  filling_running = ground arith;
  failed_error = ground arith;
  slots_as = λ i h. ground (
    arith,
    v.slots_as i,
    v.slots_as r.producer_position,
    get_or-set r.slots r.producer_position i producer free,
  );
}

-- The slot that the producer holds is marked so.
pub producer_slot :
    {r : Ring}
    → IsValid r
    → r.producer_reserved ≡ true
    → slot_at r.slots r.producer_position ≡ producer
producer_slot {r} v e = ground (arith, v.slots_as r.producer_position)

pub consumer_slot :
    {r : Ring}
    → IsValid r
    → r.consumer_reserved ≡ true
    → slot_at r.slots r.consumer_position ≡ consumer
consumer_slot {r} v e = ground (arith, v.slots_as r.consumer_position)

pub committed_ring-IsValid :
    {r : Ring} → IsValid r → r.producer_reserved ≡ true → IsValid (committed_ring r)
unfolding committed_ring advance slot_at
committed_ring-IsValid {r} v e = record {
  sized = rw (length-set r.slots r.producer_position committed) v.sized;
  small = v.small;
  consumer_in = v.consumer_in;
  producer_in = ground arith;
  producer_at = ground arith;
  room = ground arith;
  filling_room = ground arith;
  held_room = ground arith;
  filling_running = ground arith;
  failed_error = ground arith;
  slots_as = λ i h. rw (get_or-set r.slots r.producer_position i committed free (ground arith)) (
      commit_expected r.slot_count r.consumer_position v.consumer_in r.consumer_reserved r.occupied
        r.producer_position i _ v.producer_in (v.filling_room e) h (ground arith) v.held_room
        (rw e at (v.slots_as i h)));
}

-- With a valid ring the test of the slot always passes.
pub producer_commit-eq :
    {r : Ring}
    → IsValid r
    → producer_commit r ≡ (if r.producer_reserved then (ok, committed_ring r) else (einval, r))
unfolding producer_commit
producer_commit-eq {r} v = ground (arith, producer_slot v)

pub producer_commit-IsValid : {r : Ring} → IsValid r → IsValid (producer_commit r).1
producer_commit-IsValid {r} v = rw (producer_commit-eq v) (
    if_elim (λ (s : ℤ × Ring). IsValid s.1) r.producer_reserved (λ e. committed_ring-IsValid v e)
      (λ _. v))

pub producer_abort-IsValid : {r : Ring} → IsValid r → IsValid (producer_abort r).1
unfolding producer_abort
producer_abort-IsValid {r} v = record {
  sized = ground (arith, length-set r.slots r.producer_position free);
  small = ground arith;
  consumer_in = ground arith;
  producer_in = ground arith;
  producer_at = ground arith;
  room = ground arith;
  filling_room = ground arith;
  held_room = ground arith;
  filling_running = ground arith;
  failed_error = ground arith;
  slots_as = λ i h. ground (
    arith,
    v.slots_as i,
    v.slots_as r.producer_position,
    get_or-set r.slots r.producer_position i free free,
  );
}

pub taken_ring-IsValid :
    {r : Ring} → IsValid r → r.consumer_reserved ≡ false → 0 < r.occupied → IsValid (taken_ring r)
unfolding taken_ring slot_at
taken_ring-IsValid {r} v e p = record {
  sized = rw (length-set r.slots r.consumer_position consumer) v.sized;
  small = v.small;
  consumer_in = v.consumer_in;
  producer_in = v.producer_in;
  producer_at = v.producer_at;
  room = v.room;
  filling_room = v.filling_room;
  held_room = λ _. p;
  filling_running = v.filling_running;
  failed_error = v.failed_error;
  slots_as =
      λ i h. ground (arith, v.slots_as i, get_or-set r.slots r.consumer_position i consumer free);
}

pub started-IsValid : {r : Ring} → IsValid r → IsValid (record r { consumer_started = true })
started-IsValid {r} v = grind arith

pub released_ring-IsValid :
    {r : Ring} → IsValid r → r.consumer_reserved ≡ true → IsValid (released_ring r)
unfolding released_ring advance slot_at
released_ring-IsValid {r} v e = record {
  sized = rw (length-set r.slots r.consumer_position free) v.sized;
  small = v.small;
  consumer_in = ground arith;
  producer_in = v.producer_in;
  producer_at = ground arith;
  room = ground arith;
  filling_room = ground arith;
  held_room = ground arith;
  filling_running = ground arith;
  failed_error = ground arith;
  slots_as = λ i h. rw (get_or-set r.slots r.consumer_position i free free (ground arith)) (
      release_expected r.slot_count r.consumer_position v.consumer_in r.producer_reserved r.occupied
        i _ (v.held_room e) v.room v.filling_room h (rw e at (v.slots_as i h)));
}

pub consumer_release-eq :
    {r : Ring}
    → IsValid r
    → consumer_release r ≡ (if r.consumer_reserved then (ok, released_ring r) else (einval, r))
unfolding consumer_release
consumer_release-eq {r} v = ground (arith, consumer_slot v)

pub consumer_release-IsValid : {r : Ring} → IsValid r → IsValid (consumer_release r).1
consumer_release-IsValid {r} v = rw (consumer_release-eq v) (
    if_elim (λ (s : ℤ × Ring). IsValid s.1) r.consumer_reserved (λ e. released_ring-IsValid v e)
      (λ _. v))
