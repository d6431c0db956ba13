-- ===== src/DdrRing/Fifo.antt =====
-- The ring of iiod/ddr-ring-core.c as a queue of slots, oldest frame first.
use libiio.Prelude.{
  ℕ, zero, suc, ◌+◌, ◌-◌, ◌≤◌, ◌<◌, ◌≡◌, ◌≢◌, sym, ◌∙◌, ap, true, false, not, ◌&&◌, List, [], ◌∷◌,
  ◌++◌, some, if◌then◌else◌, arith, Bool-cases, inl, inr, take, drop, All, ◌⊎◌, word64,
}
use libiio.DdrRing
use libiio.DdrRing.{
  Ring, init, running, state_eq, advance, kept, keep_position, abort_reserved, committed_ring,
  released_ring, taken_ring, discarded_ring,
}
use libiio.DdrRing.Inv.{
  offset, IsValid, offset-advance, offset-injective, producer_commit-eq, consumer_release-eq,
}
use libiio.DdrRing.Ops.{
  consumer_reserve-ready, consumer_reserve-not_ready, discard_pending-eq, served_ring,
  ready_occupied,
}
use libiio.DdrRing.Step.{
  Op, start, start_extension, producer_reserve, producer_commit, producer_abort, consumer_reserve,
  consumer_release, discard_pending, complete_extension, mark_unavailable, observe_samples, fail,
  cancel, step, run, reachable-IsValid,
}

-- `k` positions from `p` on, going round at `n`
unfoldable pub positions : ℕ → ℕ → ℕ → List ℕ
positions n p zero = []
positions n p (suc k) = p ∷ positions n (advance n p) k

-- the slots of the frames that are committed and not yet released
abbrev pub contents : Ring → List ℕ
contents r = positions r.slot_count r.consumer_position r.occupied

positions-snoc :
    (n k p q : ℕ)
    → p < n
    → q < n
    → k < n
    → offset n p q ≡ k
    → positions n p (suc k) ≡ positions n p k ++ (q ∷ [])
unfolding positions advance
positions-snoc n zero p q hp hq hk e =
    ap (λ x. x ∷ []) (offset-injective n p hp p q hp hq (ground arith))
positions-snoc n (suc k) p q hp hq hk e =
    ap (λ xs. p ∷ xs)
      (positions-snoc n k (advance n p) q (ground arith) hq (omega arith)
        (ground (arith, offset-advance n p hp q hq)))

-- none of `k` positions from `p` on lies `k` or more behind `p`
positions-ne : (n k p q : ℕ) → p < n → q < n → k ≤ offset n p q → All (λ x. x ≢ q) (positions n p k)
unfolding positions advance
positions-ne n zero p q hp hq h = tt
positions-ne n (suc k) p q hp hq h = (
  (λ e. ground arith),
  positions-ne n k (advance n p) q (ground arith) hq (ground (arith, offset-advance n p hp q hq)),
)

positions_of_pos : (n k p : ℕ) → 0 < k → positions n p k ≡ p ∷ positions n (advance n p) (k - 1)
unfolding positions
positions_of_pos n zero p h = absurd (omega arith)
positions_of_pos n (suc k) p h = ap (λ j. p ∷ positions n (advance n p) j) (omega arith)

-- Committing appends the producer's slot.
commit_appends :
    {r : Ring}
    → IsValid r
    → r.producer_reserved ≡ true
    → contents (committed_ring r) ≡ contents r ++ (r.producer_position ∷ [])
unfolding committed_ring
commit_appends {r} v e =
    let h : r.occupied + 1 ≡ suc r.occupied = omega arith in
    ap (positions r.slot_count r.consumer_position) h
    ∙ positions-snoc r.slot_count r.occupied r.consumer_position r.producer_position v.consumer_in
        v.producer_in (v.filling_room e) (ground (arith, v.filling_room e))

-- Releasing removes the first.
release_removes :
    {r : Ring}
    → IsValid r
    → r.consumer_reserved ≡ true
    → contents r ≡ r.consumer_position ∷ contents (released_ring r)
unfolding released_ring
release_removes {r} v e =
    positions_of_pos r.slot_count r.occupied r.consumer_position (v.held_room e)

-- what each call does to the queue of slots
unfoldable pub effect : Ring → Op → List ℕ
effect r producer_commit =
    if r.producer_reserved then contents r ++ (r.producer_position ∷ []) else contents r
effect r consumer_release = if r.consumer_reserved then drop 1 (contents r) else contents r
effect r discard_pending =
    if state_eq r.state running && not r.producer_reserved
    then take (kept r) (contents r)
    else contents r
effect r _ = contents r

contents-discard :
    {r : Ring}
    → IsValid r
    → r.producer_reserved ≡ false
    → contents (discarded_ring r) ≡ take (kept r) (contents r)
unfolding discarded_ring positions
contents-discard {r} v e = elim (Bool-cases r.consumer_reserved) [
  | inl h ↦ simp h (
      ap (take 1)
        (sym (positions_of_pos r.slot_count r.occupied r.consumer_position (v.held_room h))))
  | inr h ↦ simp h
]

contents-abort : (r : Ring) → contents (abort_reserved r) ≡ contents r
unfolding abort_reserved DdrRing.producer_abort
contents-abort r = ground arith

contents-reserve : {r : Ring} → IsValid r → contents (DdrRing.consumer_reserve r).2 ≡ contents r
contents-reserve {r} v = elim (Bool-cases r.consumer_reserved) [
  | inl e ↦ ap contents (consumer_reserve-not_ready v (inl e)).2
  | inr e ↦ elim (Bool-cases (DdrRing.consumer_ready r)) [
    | inl h ↦ ap (λ s. contents s.2) (consumer_reserve-ready v e h) ∙ served
    | inr h ↦ ap contents (consumer_reserve-not_ready v (inr h)).2
  ]
]
  where
    served : contents (taken_ring (served_ring r)) ≡ contents r
    served = unfold taken_ring in ground arith

contents-commit :
    {r : Ring} → IsValid r → contents (DdrRing.producer_commit r).1 ≡ effect r producer_commit
unfolding effect
contents-commit {r} v =
    rw (producer_commit-eq v) (elim (Bool-cases r.producer_reserved) [
      | inl e ↦ simp e (commit_appends v e)
      | inr e ↦ simp e
    ])

contents-release :
    {r : Ring} → IsValid r → contents (DdrRing.consumer_release r).1 ≡ effect r consumer_release
unfolding effect
contents-release {r} v = rw (consumer_release-eq v) (elim (Bool-cases r.consumer_reserved) [
  | inl e ↦ simp e (ap (drop 1) (sym (release_removes v e)))
  | inr e ↦ simp e
])

contents-discard_pending :
    {r : Ring} → IsValid r → contents (DdrRing.discard_pending r).2 ≡ effect r discard_pending
unfolding effect
contents-discard_pending {r} v =
    elim (Bool-cases (state_eq r.state running && not r.producer_reserved)) [
      | inl e ↦ simp e (
          ap (λ s. contents s.2) (discard_pending-eq v (ground arith) (ground arith))
          ∙ contents-discard v (ground arith))
      | inr e ↦ simp e (unfold DdrRing.discard_pending in ground arith)
    ]

-- On a valid ring, a call changes the queue of slots as `effect` says: a commit appends the producer's slot, a
-- release removes the oldest, a discard leaves only what the consumer holds, and no other call
-- (or call that is refused) changes it.
pub contents-step : {r : Ring} (op : Op) → IsValid r → contents (step r op).2 ≡ effect r op
unfolding step effect
contents-step {r} start v = unfold DdrRing.start in ground arith
contents-step {r} start_extension v = unfold DdrRing.start_extension in ground arith
contents-step {r} producer_reserve v = unfold DdrRing.producer_reserve in ground arith
contents-step {r} producer_commit v = contents-commit v
contents-step {r} producer_abort v = unfold DdrRing.producer_abort in ground arith
contents-step {r} consumer_reserve v = contents-reserve v
contents-step {r} consumer_release v = contents-release v
contents-step {r} discard_pending v = contents-discard_pending v
contents-step {r} complete_extension v = unfold DdrRing.complete_extension in ground arith
contents-step {r} (mark_unavailable n) v = unfold DdrRing.mark_unavailable in ground arith
contents-step {r} (observe_samples f n) v = unfold DdrRing.observe_samples in ground arith
contents-step {r} (fail reason error) v = unfold DdrRing.fail in ground (arith, contents-abort r)
contents-step {r} (cancel reason) v = unfold DdrRing.cancel in ground (arith, contents-abort r)

producer_reserve-at :
    {r : Ring} {p : ℕ}
    → IsValid r
    → (DdrRing.producer_reserve r).1 ≡ some p
    → (p < r.slot_count) × (r.occupied ≤ offset r.slot_count r.consumer_position p)
unfolding DdrRing.producer_reserve
producer_reserve-at {r} {p} v h = ground (arith, v.slots_as r.producer_position)

-- The slot that the producer of a valid ring is given lies in the ring and holds no committed frame.
pub producer_reserve-exclusive :
    {r : Ring} {p : ℕ}
    → IsValid r
    → (DdrRing.producer_reserve r).1 ≡ some p
    → (p < r.slot_count) × All (λ x. x ≢ p) (contents r)
producer_reserve-exclusive {r} {p} v h =
    let at = producer_reserve-at v h in
    (at.0, positions-ne r.slot_count r.occupied r.consumer_position p v.consumer_in at.0 at.1)

-- The slot that the consumer of a valid ring is given is the oldest committed one, and is given only
-- if it holds none.
pub consumer_reserve-oldest :
    {r : Ring} {p : ℕ}
    → IsValid r
    → (DdrRing.consumer_reserve r).1 ≡ some p
    → (r.consumer_reserved ≡ false) × (take 1 (contents r) ≡ p ∷ [])
consumer_reserve-oldest {r} {p} v h = elim (Bool-cases r.consumer_reserved) [
  | inl e ↦ cc (consumer_reserve-not_ready v (inl e)).1
  | inr e ↦ elim (Bool-cases (DdrRing.consumer_ready r)) [
    | inl q ↦
        let same : r.consumer_position ≡ p = cc (consumer_reserve-ready v e q) in
        (
          e,
          ap (take 1)
                (positions_of_pos r.slot_count r.occupied r.consumer_position (ready_occupied r q))
              ∙ ap (λ x. x ∷ []) same,
        )
    | inr q ↦ cc (consumer_reserve-not_ready v (inr q)).1
  ]
]

-- the slots of a ring that is held by one side are not handed out to the other
abbrev pub IsApart : Ring → Type 0
IsApart r =
    ((r.consumer_reserved ≡ false) ⊎ ((DdrRing.producer_reserve r).1 ≢ some r.consumer_position))
    × ((r.producer_reserved ≡ false) ⊎ ((DdrRing.consumer_reserve r).1 ≢ some r.producer_position))

apart_producer :
    {r : Ring}
    → IsValid r
    → r.consumer_reserved ≡ true
    → (DdrRing.producer_reserve r).1 ≢ some r.consumer_position
apart_producer {r} v c =
    λ e. let at = producer_reserve-at v e in absurd (ground (arith, at, v.held_room c))

consumer_reserve-at :
    {r : Ring} {p : ℕ}
    → IsValid r
    → (DdrRing.consumer_reserve r).1 ≡ some p
    → (r.consumer_position ≡ p) × (0 < r.occupied)
consumer_reserve-at {r} {p} v h = elim (Bool-cases r.consumer_reserved) [
  | inl e ↦ cc (consumer_reserve-not_ready v (inl e)).1
  | inr e ↦ elim (Bool-cases (DdrRing.consumer_ready r)) [
    | inl q ↦ (cc (consumer_reserve-ready v e q), ready_occupied r q)
    | inr q ↦ cc (consumer_reserve-not_ready v (inr q)).1
  ]
]

apart_consumer :
    {r : Ring}
    → IsValid r
    → r.producer_reserved ≡ true
    → (DdrRing.consumer_reserve r).1 ≢ some r.producer_position
apart_consumer {r} v p = λ e.
    let at = consumer_reserve-at v e in
    absurd (ground (arith, at.0, at.1, v.filling_room p, v.producer_at, v.consumer_in))

-- From a ring that `init` accepts, of fewer than 2^64 slots, after any calls: while the consumer holds a slot
-- the producer is not given that one, and while the producer holds a slot the consumer is not given that one.
pub reservations_disjoint :
    (count target : ℕ) (ops : List Op) {r : Ring}
    → count < word64
    → init count target ≡ some r
    → IsApart (run r ops)
reservations_disjoint count target ops {r} h e =
    let v = reachable-IsValid count target ops h e in
    let q = run r ops in
    (
      elim (Bool-cases q.consumer_reserved) [
        | inl held ↦ inr (apart_producer v held)
        | inr free ↦ inl free
      ],
      elim (Bool-cases q.producer_reserved) [
        | inl held ↦ inr (apart_consumer v held)
        | inr free ↦ inl free
      ],
    )
