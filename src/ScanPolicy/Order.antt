-- ===== src/ScanPolicy/Order.antt =====
-- The receipts that wait in the circular array of iiod/spf-scan-policy.c form a queue.
use libiio.Prelude.{
  append_nil, ℕ, zero, suc, ◌+◌, ◌-◌, ◌%◌, ◌<◌, ◌≡◌, refl, sym, ◌∙◌, ap, subst, true, false, List,
  [], ◌∷◌, ◌++◌, Option, none, some, arith, get_or, ◌==◌, Bool-cases, inl, inr, ℤ, ok, eagain,
  add32,
}
use libiio.ScanPolicy.{Policy, Ack, Choice, empty_ack, ack_capacity}
use libiio.ScanPolicy.Receipts
use libiio.ScanPolicy.Receipts.{
  receipt, vacated, target_at, terminal_ack, drop_pending, noted, deposit, receive, classify,
  answer, refusal, seen_before, cancel_all, decayed,
}
use libiio.ScanPolicy.Select
use libiio.ScanPolicy.Select.{
  learn, boosted, consume, weigh, choose, drawn, lottery, select_ordered, select_random,
  select_ready, not_ready, no_lottery, eligible,
}
use libiio.ScanPolicy.Mailbox.{IsBalanced}
use libiio.ScanPolicy.Ledger.{
  Op, select, commit, finish_visit, feedback, take_ack, stop, step, left,
}
use libiio.ScanPolicy.Appends.{
  Appends, Appended, commit-waiting, entries, feedback-Appends, finish_visit-waiting, none_new,
  select_ready-Appended, stop-Appends, waiting,
}

-- what a call hands out
abbrev pub handed : Option Ack → List Ack
handed none = []
handed (some a) = a ∷ []

abbrev pub fetched : Policy → Op → List Ack
fetched p take_ack = handed (Receipts.take_ack p).1
fetched p _ = []

entries_of_pos :
    (acks : List Ack) (head n : ℕ)
    → 0 < n
    → entries acks head n ≡ get_or acks head empty_ack ∷ entries acks ((head + 1) % 64) (n - 1)
unfolding entries
entries_of_pos acks head zero h = absurd (omega arith)
entries_of_pos acks head (suc n) h =
    ap (λ k. get_or acks head empty_ack ∷ entries acks ((head + 1) % 64) k) (omega arith)

take_ack_when_empty :
    (p : Policy) → (p.ack_count == 0) ≡ true → Receipts.take_ack p ≡ (eagain, none, p)
unfolding Receipts.take_ack
take_ack_when_empty p e = ground (arith, e)

take_ack_when_some :
    (p : Policy)
    → (p.ack_count == 0) ≡ false
    → Receipts.take_ack p ≡ (
      ok,
      some (get_or p.acks p.ack_head empty_ack),
      record p { ack_head = add32 p.ack_head 1 % ack_capacity; ack_count = p.ack_count - 1 },
    )
unfolding Receipts.take_ack
take_ack_when_some p e = ground (arith, e)

pub take_ack-order :
    {p : Policy}
    → IsBalanced p
    → waiting p ≡ handed (Receipts.take_ack p).1 ++ waiting (Receipts.take_ack p).2
take_ack-order {p} h = elim (Bool-cases (p.ack_count == 0)) [
  | inl e ↦ rw (take_ack_when_empty p e) refl
  | inr e ↦
      let g : add32 p.ack_head 1 % ack_capacity ≡ (p.ack_head + 1) % 64 = omega (arith, h) in
      rw (take_ack_when_some p e, g) (entries_of_pos p.acks p.ack_head p.ack_count (ground arith))
]

-- what happens to the queue of receipts
abbrev pub Queued : Policy → Op → Policy → Type 0
Queued p op q = (new : List Ack) × (waiting p ++ new ≡ fetched p op ++ waiting q)

appended : {p q : Policy} → Appends p q → (new : List Ack) × (waiting p ++ new ≡ waiting q)
appended a = (a.new, sym a.order)

left-Appended :
    (p : Policy) (o : Option (ℤ × Option Choice × Policy)) {q : Policy}
    → Appended p o
    → left o ≡ some q
    → (new : List Ack) × (waiting p ++ new ≡ waiting q)
left-Appended p none a e = ground arith
left-Appended p (some (c, d, r)) {q} a e =
    let same : r ≡ q = ground arith in
    subst (λ (x : Policy). (new : List Ack) × (waiting p ++ new ≡ waiting x)) same (appended a)

here :
    (p : Policy) {q r : Policy}
    → Appends p q
    → some q ≡ some r
    → (new : List Ack) × (waiting p ++ new ≡ waiting r)
here p {q} {r} a e =
    let same : q ≡ r = ground arith in
    subst (λ (x : Policy). (new : List Ack) × (waiting p ++ new ≡ waiting x)) same (appended a)

-- On a policy whose mailbox is in order, a call that returns leaves the waiting receipts in their
-- order: those that it hands out are the oldest, and new ones come behind the rest.
pub step-Queued :
    (op : Op) (p : Policy) {q : Policy} → IsBalanced p → step p op ≡ some q → Queued p op q
unfolding step
step-Queued (select fuel now) p h e =
    left-Appended p (Select.select fuel p now)
      (unfold Select.select in select_ready-Appended (not_ready p now) fuel now h) e
step-Queued (commit start) p h e =
    here p (none_new p (Select.commit p start).1 (commit-waiting p start)) e
step-Queued (finish_visit visit intact) p h e =
    here p
      (none_new p (Receipts.finish_visit p visit intact).1 (finish_visit-waiting p visit intact)) e
step-Queued (feedback f now) p h e = here p (feedback-Appends f now h) e
step-Queued take_ack p {q} h e =
    let same : (Receipts.take_ack p).2 ≡ q = ground arith in
    subst (λ (x : Policy). Queued p take_ack x) same ([], append_nil (waiting p) ∙ take_ack-order h)
step-Queued (stop now) p h e = here p (stop-Appends now h) e
