-- ===== src/ScanPolicy/Run.antt =====
-- Sequences of calls of iiod/spf-scan-policy.c: no receipt is lost.
use libiio.Prelude.{
  ℕ, zero, suc, ◌+◌, ◌≡◌, refl, List, [], ◌∷◌, Option, none, some, arith, Option-cases, inl, inr,
  replicate, length-replicate, ℤ, ok, subst, if◌then◌else◌, is_zero,
}
use libiio.ScanPolicy.{
  Config, Policy, Choice, create_policy, fresh_policy, used_target, ack_capacity, empty_ack,
}
use libiio.ScanPolicy.Receipts
use libiio.ScanPolicy.Select
use libiio.ScanPolicy.Mailbox.{IsBalanced, Keeps, owed, count_pending}
use libiio.ScanPolicy.Ledger.{
  Op, select, commit, finish_visit, feedback, take_ack, stop, step, left, Kept, is_accepted,
  accepted_by, fetched_by, select-Kept, commit-Keeps, finish_visit-Keeps, feedback-Delivered,
  take_ack-IsBalanced, stop-Keeps,
}
use libiio.ScanPolicy.Appends.{waiting, entries}
use libiio.ScanPolicy.Owed.{outstanding, sum_acks, sum_pending}
use libiio.ScanPolicy.Paid.{accepted_weight, fetched_weight, step-HasPaid}

-- the policy after some calls; `none` if one of them has not returned
unfoldable pub run : Policy → List Op → Option Policy
run p [] = some p
run p (op ∷ ops) = elim (step p op) [ none ↦ none | some q ↦ run q ops ]

-- the sum of what the calls accept, and of what they hand out
unfoldable pub accepted_in : Policy → List Op → ℕ
accepted_in p [] = 0
accepted_in p (op ∷ ops) =
    accepted_by p op + elim (step p op) [ none ↦ 0 | some q ↦ accepted_in q ops ]

unfoldable pub fetched_in : Policy → List Op → ℕ
fetched_in p [] = 0
fetched_in p (op ∷ ops) =
    fetched_by p op + elim (step p op) [ none ↦ 0 | some q ↦ fetched_in q ops ]

-- One call changes what is owed by what it accepts and what it hands out.
abbrev Moves : Policy → ℕ → ℕ → Policy → Type 0
Moves p got gave q = IsBalanced q × (owed q + gave ≡ owed p + got)

still : {p q : Policy} → Keeps p q → Moves p 0 0 q
still k = (k.balanced, omega (arith, k.owes))

left-Moves :
    (p : Policy) (o : Option (ℤ × Option Choice × Policy)) {q : Policy}
    → Kept p o
    → left o ≡ some q
    → Moves p 0 0 q
left-Moves p none k e = ground arith
left-Moves p (some (c, d, r)) {q} k e =
    let same : r ≡ q = ground arith in subst (Moves p 0 0) same (still k)

here :
    (p : Policy) (got gave : ℕ) {q r : Policy}
    → Moves p got gave q
    → some q ≡ some r
    → Moves p got gave r
here p got gave {q} {r} m e = let same : q ≡ r = ground arith in subst (Moves p got gave) same m

step-Moves :
    (op : Op) (p : Policy) {q : Policy}
    → IsBalanced p
    → step p op ≡ some q
    → Moves p (accepted_by p op) (fetched_by p op) q
unfolding step accepted_by fetched_by
step-Moves (select fuel now) p h e =
    left-Moves p (Select.select fuel p now) (select-Kept fuel now h) e
step-Moves (commit start) p h e = here p 0 0 (still (commit-Keeps start h)) e
step-Moves (finish_visit visit intact) p h e =
    here p 0 0 (still (finish_visit-Keeps visit intact h)) e
step-Moves (feedback f now) p h e =
    let d = feedback-Delivered h f now in
    here p (if is_accepted (Receipts.feedback p f now).0 then 1 else 0) 0 (d.0, omega (arith, d.1))
      e
step-Moves take_ack p h e =
    let t = take_ack-IsBalanced h in
    here p 0 (if is_zero (Receipts.take_ack p).0 then 1 else 0) (t.0, omega (arith, t.1)) e
step-Moves (stop now) p h e = here p 0 0 (still (stop-Keeps now h)) e

run-Moves :
    (ops : List Op) {p q : Policy}
    → IsBalanced p
    → run p ops ≡ some q
    → IsBalanced q × (owed q + fetched_in p ops ≡ owed p + accepted_in p ops)
unfolding run accepted_in fetched_in
run-Moves [] {p} {q} h e =
    let same : p ≡ q = ground arith in subst (Moves p 0 0) same (h, omega arith)
run-Moves (op ∷ ops) {p} {q} h e = elim (Option-cases (step p op)) [
  | inl s ↦ ground arith
  | inr (r, s) ↦
      let m = step-Moves op p h s in
      let rest = run-Moves ops {p = r} {q = q} m.0 (ground arith) in
      (rest.0, rw s (omega (arith, m.1, rest.1)))
]

none_pending : (n start : ℕ) → count_pending (replicate n (used_target start)) ≡ 0
none_pending zero start = refl
none_pending (suc n) start = omega (arith, none_pending n start)

create_policy-IsBalanced :
    (c : Config) (start : ℕ) {p : Policy}
    → create_policy c start ≡ (ok, some p)
    → IsBalanced p × (owed p ≡ 0)
unfolding create_policy fresh_policy
create_policy-IsBalanced c start {p} e = ground (
  arith,
  none_pending c.targets start,
  length-replicate c.targets (used_target start),
  length-replicate ack_capacity empty_ack,
)

-- the weights of what the calls accept, and of the receipts that they hand out
unfoldable pub accepted_weights : (ℕ → ℕ → ℕ) → Policy → List Op → ℕ
accepted_weights weight p [] = 0
accepted_weights weight p (op ∷ ops) =
    accepted_weight weight p op
    + elim (step p op) [ none ↦ 0 | some q ↦ accepted_weights weight q ops ]

unfoldable pub fetched_weights : (ℕ → ℕ → ℕ) → Policy → List Op → ℕ
fetched_weights weight p [] = 0
fetched_weights weight p (op ∷ ops) =
    fetched_weight weight p op
    + elim (step p op) [ none ↦ 0 | some q ↦ fetched_weights weight q ops ]

run-HasPaid :
    (weight : ℕ → ℕ → ℕ) (ops : List Op) {p q : Policy}
    → IsBalanced p
    → run p ops ≡ some q
    → outstanding weight q + fetched_weights weight p ops
      ≡ outstanding weight p + accepted_weights weight p ops
unfolding run accepted_weights fetched_weights
run-HasPaid weight [] {p} {q} h e =
    let same : p ≡ q = ground arith in
    subst (λ (x : Policy). outstanding weight x + 0 ≡ outstanding weight p + 0) same refl
run-HasPaid weight (op ∷ ops) {p} {q} h e = elim (Option-cases (step p op)) [
  | inl s ↦ ground arith
  | inr (r, s) ↦
      let m = step-Moves op p h s in
      let here = step-HasPaid weight op h s in
      let rest = run-HasPaid weight ops {p = r} {q = q} m.0 (ground arith) in
      rw s (omega (arith, here, rest))
]

fresh_weights :
    (weight : ℕ → ℕ → ℕ) (n start : ℕ) → sum_pending weight (replicate n (used_target start)) ≡ 0
fresh_weights weight zero start = refl
fresh_weights weight (suc n) start = omega (arith, fresh_weights weight n start)

create_policy-outstanding :
    (weight : ℕ → ℕ → ℕ) (c : Config) (start : ℕ) {p : Policy}
    → create_policy c start ≡ (ok, some p)
    → outstanding weight p ≡ 0
unfolding create_policy fresh_policy entries
create_policy-outstanding weight c start {p} e =
    ground (arith, fresh_weights weight c.targets start)

-- Whatever is called on a policy that `create` accepts, in calls that return: the receipts that wait
-- to be fetched and the feedback still pending, together never more than the 64 that the mailbox
-- holds, are as many as the feedback that was accepted and has had no receipt fetched; the pending
-- feedback is counted right. And if every feedback, and its receipt, has any weight by its sequence number and its
-- visit, the weights of what was accepted are those of the receipts that were fetched, that wait, and of the
-- feedback still pending: each accepted feedback has one receipt, with its numbers, or is pending.
pub receipts_balance :
    (weight : ℕ → ℕ → ℕ) (c : Config) (start : ℕ) (ops : List Op) {p q : Policy}
    → create_policy c start ≡ (ok, some p)
    → run p ops ≡ some q
    → IsBalanced q
      × (accepted_in p ops ≡ fetched_in p ops + q.ack_count + q.pending_count)
      × (accepted_weights weight p ops
          ≡ fetched_weights weight p ops
            + sum_acks weight (waiting q)
            + sum_pending weight q.targets)
receipts_balance weight c start ops e r =
    let i = create_policy-IsBalanced c start e in
    let m = run-Moves ops i.0 r in
    let paid = run-HasPaid weight ops i.0 r in
    let none_owed = create_policy-outstanding weight c start e in
    (m.0, omega (arith, m.1, i.1), omega (arith, paid, none_owed))
