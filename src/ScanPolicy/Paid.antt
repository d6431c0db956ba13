-- ===== src/ScanPolicy/Paid.antt =====
-- What the deliveries of iiod/spf-scan-policy.c owe, and what a fetched receipt pays, by weight.
use libiio.Prelude.{
  ℕ, ◌+◌, ◌<◌, ◌≡◌, refl, ◌∙◌, ap, Bool, true, false, Option, none, some, arith, length, leb,
  if◌then◌else◌, if_elim, subst, ℤ, add32,
}
use libiio.ScanPolicy.{Policy, Target, Choice, Feedback, Pending, Result, superseded, ack_capacity}
use libiio.ScanPolicy.Receipts
use libiio.ScanPolicy.Receipts.{
  receipt, vacated, target_at, terminal_ack, drop_pending, noted, deposit, receive, classify,
  answer, refusal, seen_before, cancel_all, decayed,
}
use libiio.ScanPolicy.Select
use libiio.ScanPolicy.Select.{
  learn, boosted, consume, weigh, choose, drawn, lottery, select_ordered, select_random,
  select_ready, not_ready, no_lottery, eligible,
}
use libiio.ScanPolicy.Mailbox.{IsBalanced, pending_of, drop_pending-Keeps, drop_pending-vacates}
use libiio.ScanPolicy.Appends.{waiting}
use libiio.ScanPolicy.Ledger.{
  Op, select, commit, finish_visit, feedback, take_ack, stop, step, left, is_accepted, refusal-none,
  refusal-some,
}
use libiio.ScanPolicy.Order.{handed, take_ack-order}
use libiio.ScanPolicy.Owed.{
  weight_of, sum_pending, sum_acks, outstanding, sum_acks-append, sum_pending-set,
  drop_pending-outstanding, IsSettled, select-IsSettled, finish_visit-outstanding,
  commit-outstanding, stop-outstanding,
}

-- every feedback with a weight by its sequence number and its visit
module _ (weight : ℕ → ℕ → ℕ) where
  -- what a delivery owes, by its result
  abbrev pub HasOwed : Policy → Feedback → Result × Policy → Type 0
  HasOwed p f (result, q) =
      outstanding weight q
      ≡ outstanding weight p + (if is_accepted result then weight f.sequence f.visit else 0)

  deposit-outstanding :
      (p : Policy) (f : Feedback) (now : ℕ)
      → f.target < length p.targets
      → pending_of (target_at p f.target) ≡ 0
      → outstanding weight (deposit p f now) ≡ outstanding weight p + weight f.sequence f.visit
  unfolding deposit
  deposit-outstanding p f now k z =
      let t = target_at p f.target in
      let pending : Pending = record { value = f; received = now; occupied = true } in
      let t' : Target = record t { channel_sequence = f.sequence; pending = pending } in
      let changed = sum_pending-set weight p.targets f.target t' k in
      let empty : weight_of weight t ≡ 0 = ground (arith, z) in omega (arith, changed, empty)

  noted_then :
      (p : Policy) (f : Feedback) (now : ℕ)
      → f.target < length p.targets
      → pending_of (target_at p f.target) ≡ 0
      → outstanding weight (deposit (noted p f.sequence) f now)
        ≡ outstanding weight p + weight f.sequence f.visit
  unfolding noted
  noted_then p f now k z = deposit-outstanding (noted p f.sequence) f now k z

  receive-HasOwed :
      {p : Policy} (f : Feedback) (now : ℕ)
      → f.target < p.config.targets
      → IsBalanced p
      → HasOwed p f (receive p f now)
  unfolding receive
  receive-HasOwed {p} f now k h =
      if_elim (HasOwed p f) (leb f.sequence (target_at p f.target).channel_sequence)
        (λ _. omega arith)
        (λ _.
          if_elim (HasOwed p f) (leb ack_capacity (add32 p.ack_count p.pending_count))
            (λ _. omega arith)
            (λ _.
              let dropped = drop_pending-outstanding weight f.target superseded now h in
              let balanced = drop_pending-Keeps f.target superseded now h in
              let q = drop_pending p f.target superseded now in
              let inside : f.target < length q.targets = ground (arith, balanced, k) in
              let empty =
                drop_pending-vacates p f.target superseded now (omega (arith, h.sized, k)) in
              noted_then q f now inside empty ∙ ap (λ n. n + weight f.sequence f.visit) dropped))

  classify-HasOwed :
      (seen : Option Bool) {p : Policy} (f : Feedback) (now : ℕ)
      → f.target < p.config.targets
      → IsBalanced p
      → HasOwed p f (classify seen p f now)
  unfolding classify
  classify-HasOwed none f now k h = omega arith
  classify-HasOwed (some true) f now k h = omega arith
  classify-HasOwed (some false) f now k h = receive-HasOwed f now k h

  answer-HasOwed :
      (r : Option Result) {p : Policy} (f : Feedback) (now : ℕ)
      → refusal p f now ≡ r
      → IsBalanced p
      → HasOwed p f (answer r p f now)
  unfolding answer
  answer-HasOwed (some result) {p} f now e h = rw (refusal-some p f now e) (omega arith)
  answer-HasOwed none {p} f now e h =
      classify-HasOwed (seen_before p f.sequence) f now (refusal-none p f now e) h

  pub feedback-HasOwed :
      {p : Policy} (f : Feedback) (now : ℕ) → IsBalanced p → HasOwed p f (Receipts.feedback p f now)
  unfolding Receipts.feedback
  feedback-HasOwed {p} f now h = answer-HasOwed (refusal p f now) f now refl h

  -- the weight of the receipt that `take_ack` hands out
  pub take_ack-outstanding :
      {p : Policy}
      → IsBalanced p
      → outstanding weight (Receipts.take_ack p).2
          + sum_acks weight (handed (Receipts.take_ack p).1)
        ≡ outstanding weight p
  take_ack-outstanding {p} h =
      let order = take_ack-order h in
      let parts =
        sum_acks-append weight (handed (Receipts.take_ack p).1) (waiting (Receipts.take_ack p).2) in
      let same : (Receipts.take_ack p).2.targets ≡ p.targets =
        unfold Receipts.take_ack in ground arith in
      omega (arith, ap (sum_acks weight) order, parts, ap (sum_pending weight) same)

  -- the weights of the feedback that a call accepts, and of the receipts that it hands out
  unfoldable pub accepted_weight : Policy → Op → ℕ
  accepted_weight p (feedback f now) =
      if is_accepted (Receipts.feedback p f now).0 then weight f.sequence f.visit else 0
  accepted_weight p _ = 0

  unfoldable pub fetched_weight : Policy → Op → ℕ
  fetched_weight p take_ack = sum_acks weight (handed (Receipts.take_ack p).1)
  fetched_weight p _ = 0

  -- A call that returns changes what is outstanding by what it accepts and hands out.
  abbrev pub HasPaid : Policy → Op → Policy → Type 0
  HasPaid p op q =
      outstanding weight q + fetched_weight p op ≡ outstanding weight p + accepted_weight p op

  left-HasPaid :
      (p : Policy) (o : Option (ℤ × Option Choice × Policy)) {q : Policy}
      → IsSettled weight p o
      → left o ≡ some q
      → outstanding weight q ≡ outstanding weight p
  left-HasPaid p none k e = ground arith
  left-HasPaid p (some (c, d, r)) {q} k e =
      let same : r ≡ q = ground arith in
      subst (λ (x : Policy). outstanding weight x ≡ outstanding weight p) same k

  pub step-HasPaid : (op : Op) {p q : Policy} → IsBalanced p → step p op ≡ some q → HasPaid p op q
  unfolding step accepted_weight fetched_weight
  step-HasPaid (select fuel now) {p} h e =
      omega
        (arith, left-HasPaid p (Select.select fuel p now) (select-IsSettled weight fuel now h) e)
  step-HasPaid (commit start) {p} {q} h e =
      let same : (Select.commit p start).1 ≡ q = ground arith in
      subst (λ (x : Policy). HasPaid p (commit start) x) same
        (omega (arith, commit-outstanding weight p start))
  step-HasPaid (finish_visit visit intact) {p} {q} h e =
      let same : (Receipts.finish_visit p visit intact).1 ≡ q = ground arith in
      subst (λ (x : Policy). HasPaid p (finish_visit visit intact) x) same
        (omega (arith, finish_visit-outstanding weight p visit intact))
  step-HasPaid (feedback f now) {p} {q} h e =
      let same : (Receipts.feedback p f now).1 ≡ q = ground arith in
      subst (λ (x : Policy). HasPaid p (feedback f now) x) same
        (omega (arith, feedback-HasOwed f now h))
  step-HasPaid take_ack {p} {q} h e =
      let same : (Receipts.take_ack p).2 ≡ q = ground arith in
      subst (λ (x : Policy). HasPaid p take_ack x) same (omega (arith, take_ack-outstanding h))
  step-HasPaid (stop now) {p} {q} h e =
      let same : Receipts.stop p now ≡ q = ground arith in
      subst (λ (x : Policy). HasPaid p (stop now) x) same
        (omega (arith, stop-outstanding weight now h))
