-- ===== src/ScanPolicy/Ledger.antt =====
-- The calls of iiod/spf-scan-policy.c in any order, and the receipts that they owe.
use libiio.Prelude.{
  ℕ, ◌+◌, ◌<◌, ◌≡◌, refl, ◌∙◌, ap, Bool, true, false, List, Option, none, some, arith,
  if◌then◌else◌, if_elim, set, set-outside, length, length-set, ltb, leb, Bool-cases, inl, inr, ℤ,
  is_zero, add32,
}
use libiio.ScanPolicy.{
  Policy, Target, Pending, Feedback, Choice, Result, accepted, superseded, expired, duplicate,
  mailbox_full, continuous, ack_capacity,
}
use libiio.ScanPolicy.Receipts
use libiio.ScanPolicy.Receipts.{
  target_at, drop_pending, noted, deposit, receive, classify, refusal, answer, seen_before,
  cancel_all, visit_mismatch, same_bytes, visit_at,
}
use libiio.ScanPolicy.Select
use libiio.ScanPolicy.Select.{
  weigh, select_ordered, choose, drawn, lottery, select_random, select_ready, not_ready, no_lottery,
  eligible,
}
use libiio.ScanPolicy.Mailbox.{
  IsBalanced, Keeps, Keeps-refl, Keeps-trans, owed, pending_of, drop_pending-Keeps,
  drop_pending-vacates, cancel_all-Keeps, weigh-Keeps, retarget-Keeps, count_pending-set,
}

abbrev pub is_accepted : Result → Bool
is_accepted accepted = true
is_accepted _ = false

noted-IsBalanced : {p : Policy} (sequence : ℕ) → IsBalanced p → Keeps p (noted p sequence)
unfolding noted
noted-IsBalanced sequence h = ground (arith, h)

deposit-IsBalanced :
    {p : Policy} (f : Feedback) (now : ℕ)
    → f.target < p.config.targets
    → pending_of (target_at p f.target) ≡ 0
    → owed p < ack_capacity
    → IsBalanced p
    → IsBalanced (deposit p f now) × (owed (deposit p f now) ≡ owed p + 1)
unfolding deposit
deposit-IsBalanced {p} f now k z room h =
    let t = target_at p f.target in
    let pending : Pending = record { value = f; received = now; occupied = true } in
    let t' : Target = record t { channel_sequence = f.sequence; pending = pending } in
    ground (
      arith,
      h,
      count_pending-set p.targets f.target t' (omega (arith, h, k)),
      length-set p.targets f.target t',
    )

pub refusal-none :
    (p : Policy) (f : Feedback) (now : ℕ) → refusal p f now ≡ none → f.target < p.config.targets
unfolding refusal
refusal-none p f now e = ground arith

pub refusal-some :
    (p : Policy) (f : Feedback) (now : ℕ) {r : Result}
    → refusal p f now ≡ some r
    → is_accepted r ≡ false
unfolding refusal
refusal-some p f now e = ground arith

-- what a delivery owes, by its result
abbrev pub Delivered : Policy → Result × Policy → Type 0
Delivered p (result, q) = IsBalanced q × (owed q ≡ owed p + (if is_accepted result then 1 else 0))

module _ {p : Policy} (h : IsBalanced p) where
  refused : (result : Result) → is_accepted result ≡ false → Delivered p (result, p)
  refused result e = (h, ground arith)

  receive-Delivered :
      (f : Feedback) (now : ℕ) → f.target < p.config.targets → Delivered p (receive p f now)
  unfolding receive
  receive-Delivered f now k =
      if_elim (Delivered p) (leb f.sequence (target_at p f.target).channel_sequence)
        (λ _. refused superseded refl)
        (λ _.
          if_elim (Delivered p) (leb ack_capacity (add32 p.ack_count p.pending_count))
            (λ _. refused mailbox_full refl)
            (λ full.
              let a = drop_pending-Keeps f.target superseded now h in
              let b = noted-IsBalanced f.sequence a.balanced in
              let empty : pending_of (target_at (drop_pending p f.target superseded now) f.target)
                  ≡ 0 =
                drop_pending-vacates p f.target superseded now (omega (arith, h, k)) in
              let d =
                deposit-IsBalanced f now (rw (b.config, a.config) k) (unfold noted in empty)
                  (rw (b.owes, a.owes) (ground (arith, h))) b.balanced in
              (d.0, d.1 ∙ ap (λ n. n + 1) (b.owes ∙ a.owes))))

  classify-Delivered :
      (seen : Option Bool) (f : Feedback) (now : ℕ)
      → f.target < p.config.targets
      → Delivered p (classify seen p f now)
  unfolding classify
  classify-Delivered none f now k = refused expired refl
  classify-Delivered (some true) f now k = refused duplicate refl
  classify-Delivered (some false) f now k = receive-Delivered f now k

  answer-Delivered :
      (r : Option Result) (f : Feedback) (now : ℕ)
      → refusal p f now ≡ r
      → Delivered p (answer r p f now)
  unfolding answer
  answer-Delivered (some result) f now e = refused result (refusal-some p f now e)
  answer-Delivered none f now e =
      classify-Delivered (seen_before p f.sequence) f now (refusal-none p f now e)

  pub feedback-Delivered : (f : Feedback) (now : ℕ) → Delivered p (Receipts.feedback p f now)
  unfolding Receipts.feedback
  feedback-Delivered f now = answer-Delivered (refusal p f now) f now refl

pub data Op : Type 0 where
  select : ℕ → ℕ → Op
  commit : ℕ → Op
  finish_visit : ℕ → Bool → Op
  feedback : Feedback → ℕ → Op
  take_ack : Op
  stop : ℕ → Op

-- the policy that a result of `select` leaves
abbrev pub left : Option (ℤ × Option Choice × Policy) → Option Policy
left none = none
left (some (e, c, q)) = some q

-- `none` if `select` is still drawing when its fuel is spent
unfoldable pub step : Policy → Op → Option Policy
step p (select fuel now) = left (Select.select fuel p now)
step p (commit start) = some (Select.commit p start).1
step p (finish_visit visit intact) = some (Receipts.finish_visit p visit intact).1
step p (feedback f now) = some (Receipts.feedback p f now).1
step p take_ack = some (Receipts.take_ack p).2
step p (stop now) = some (Receipts.stop p now)

-- the feedback that a call accepts, and the receipts that it hands out
unfoldable pub accepted_by : Policy → Op → ℕ
accepted_by p (feedback f now) = if is_accepted (Receipts.feedback p f now).0 then 1 else 0
accepted_by p _ = 0

unfoldable pub fetched_by : Policy → Op → ℕ
fetched_by p take_ack = if is_zero (Receipts.take_ack p).0 then 1 else 0
fetched_by p _ = 0

-- the result of a call that neither accepts nor hands out
abbrev pub Kept : Policy → Option (ℤ × Option Choice × Policy) → Type 0
Kept p none = Unit
Kept p (some (e, c, q)) = Keeps p q

same_mailbox :
    {p q : Policy}
    → p.targets ≡ q.targets
    → p.acks ≡ q.acks
    → p.ack_head ≡ q.ack_head
    → p.ack_count ≡ q.ack_count
    → p.pending_count ≡ q.pending_count
    → p.config ≡ q.config
    → IsBalanced p
    → Keeps p q
same_mailbox {p} {q} a b c d e f h = ground (arith, h)

choose-Keeps :
    {p : Policy} (now : ℕ) (mask : List Bool) (weights : List ℕ) (draw : ℕ)
    → IsBalanced p
    → Keeps p (choose p now mask weights draw).2
unfolding choose
choose-Keeps {p} now mask weights draw h = ground (arith, h)

rng-Keeps : {p : Policy} (rng : ℕ) → IsBalanced p → Keeps p (record p { rng = rng })
rng-Keeps {p} rng h = ground (arith, h)

drawn-Kept :
    (d : Option (ℕ × ℕ)) {q : Policy} (now : ℕ) (mask : List Bool) (weights : List ℕ)
    → IsBalanced q
    → Kept q (drawn d q now mask weights)
unfolding drawn
drawn-Kept none now mask weights h = tt
drawn-Kept (some (draw, rng)) now mask weights h =
    let r = rng-Keeps rng h in Keeps-trans r (choose-Keeps now mask weights draw r.balanced)

Kept-trans :
    (o : Option (ℤ × Option Choice × Policy)) {p q : Policy} → Keeps p q → Kept q o → Kept p o
Kept-trans none a b = tt
Kept-trans (some (e, c, r)) a b = Keeps-trans a b

lottery-Kept :
    (fuel : ℕ) {p : Policy} (now : ℕ) (mask : List Bool)
    → IsBalanced p
    → Kept p (lottery fuel p now mask)
unfolding lottery
lottery-Kept fuel {p} now mask h =
    let w = weigh-Keeps now mask 0 h in
    Kept-trans (lottery fuel p now mask) w (drawn-Kept _ now mask (weigh now mask 0 p).1 w.balanced)

select_ordered-Keeps : {p : Policy} (now : ℕ) → IsBalanced p → Keeps p (select_ordered p now).2
unfolding select_ordered
select_ordered-Keeps {p} now h = ground (arith, h)

select_random-Kept :
    (r : Option ℤ) (fuel : ℕ) {p : Policy} (now : ℕ) (mask : List Bool)
    → IsBalanced p
    → Kept p (select_random r fuel p now mask)
unfolding select_random
select_random-Kept none fuel now mask h = lottery-Kept fuel now mask h
select_random-Kept (some e) fuel now mask h = Keeps-refl h

select_ready-Kept :
    (r : Option ℤ) (fuel : ℕ) {p : Policy} (now : ℕ)
    → IsBalanced p
    → Kept p (select_ready r fuel p now)
unfolding select_ready
select_ready-Kept none fuel {p} now h =
    if_elim (Kept p) (continuous p.config) (λ _. select_ordered-Keeps now h)
      (λ _. select_random-Kept _ fuel now (eligible p now p.config.targets 0) h)
select_ready-Kept (some e) fuel now h = Keeps-refl h

pub select-Kept :
    (fuel : ℕ) {p : Policy} (now : ℕ) → IsBalanced p → Kept p (Select.select fuel p now)
unfolding Select.select
select-Kept fuel {p} now h = select_ready-Kept (not_ready p now) fuel now h

started-Keeps :
    {p : Policy} (start : ℕ) (i : ℕ)
    → IsBalanced p
    → Keeps p
        (record p { targets = set p.targets i (record (target_at p i) { last_start = start }) })
started-Keeps {p} start i h = elim (Bool-cases (ltb i (length p.targets))) [
  | inl k ↦ retarget-Keeps i (record (target_at p i) { last_start = start }) refl (ground arith) h
  | inr k ↦ ground (
    arith,
    h,
    set-outside p.targets i (record (target_at p i) { last_start = start }) (ground arith),
  )
]

pub commit-Keeps : {p : Policy} (start : ℕ) → IsBalanced p → Keeps p (Select.commit p start).1
unfolding Select.commit
commit-Keeps {p} start h = let k = started-Keeps start p.selection.target h in ground (arith, k)

pub finish_visit-Keeps :
    {p : Policy} (visit : ℕ) (intact : Bool)
    → IsBalanced p
    → Keeps p (Receipts.finish_visit p visit intact).1
unfolding Receipts.finish_visit
finish_visit-Keeps {p} visit intact h = ground (arith, h)

pub stop-Keeps : {p : Policy} (now : ℕ) → IsBalanced p → Keeps p (Receipts.stop p now)
unfolding Receipts.stop
stop-Keeps {p} now h =
    let k =
      cancel_all-Keeps p.config.targets (if ltb now p.last_now then p.last_now else now) 0 h in
    if_elim (Keeps p) p.stopped (λ _. Keeps-refl h) (λ _. ground (arith, k))

pub take_ack-IsBalanced :
    {p : Policy}
    → IsBalanced p
    → IsBalanced (Receipts.take_ack p).2
      × (owed (Receipts.take_ack p).2 + fetched_by p take_ack ≡ owed p)
unfolding Receipts.take_ack fetched_by
take_ack-IsBalanced {p} h = ground (arith, h)
