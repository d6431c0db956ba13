-- ===== src/ScanPolicy/Owed.antt =====
-- Which receipts the calls of iiod/spf-scan-policy.c owe: each by the sequence number and the visit of its feedback.
use libiio.Prelude.{
  ℕ, zero, suc, ◌+◌, ◌<◌, ◌≡◌, refl, ◌∙◌, ap, Bool, true, not, ◌||◌, List, [], ◌∷◌, ◌++◌, Option,
  none, some, arith, get_or, set, set-outside, length, ltb, ◌==◌, if◌then◌else◌, if_elim, ℤ, sub64,
  Bool-cases, inl, inr,
}
use libiio.ScanPolicy.{
  Policy, Target, Ack, Choice, Result, expired, cancelled, applied, empty_target, continuous,
  random_dwell,
}
use libiio.ScanPolicy.Receipts
use libiio.ScanPolicy.Receipts.{
  receipt, vacated, target_at, terminal_ack, drop_pending, noted, deposit, receive, classify,
  answer, refusal, seen_before, cancel_all, decayed,
}
use libiio.ScanPolicy.Select
use libiio.ScanPolicy.Select.{
  learn, boosted, consume, weigh, choose, drawn, lottery, select_ordered, select_random,
  select_ready, not_ready, no_lottery, eligible,
}
use libiio.ScanPolicy.Mailbox.{
  IsBalanced, drop_pending-Keeps, learn-Keeps, consume-Keeps, occupied-inside,
}
use libiio.ScanPolicy.Appends.{waiting, terminal_ack-waiting}

-- every feedback with a weight by its sequence number and its visit
module _ (weight : ℕ → ℕ → ℕ) where
  abbrev pub weight_of : Target → ℕ
  weight_of t =
      if t.pending.occupied then weight t.pending.value.sequence t.pending.value.visit else 0

  -- the weights of the pending feedback
  abbrev pub sum_pending : List Target → ℕ
  sum_pending [] = 0
  sum_pending (t ∷ ts) = weight_of t + sum_pending ts

  -- the weights of some receipts
  abbrev pub sum_acks : List Ack → ℕ
  sum_acks [] = 0
  sum_acks (a ∷ acks) = weight a.sequence a.source_visit + sum_acks acks

  abbrev pub outstanding : Policy → ℕ
  outstanding p = sum_acks (waiting p) + sum_pending p.targets

  pub sum_acks-append : (xs ys : List Ack) → sum_acks (xs ++ ys) ≡ sum_acks xs + sum_acks ys
  sum_acks-append [] ys = omega arith
  sum_acks-append (x ∷ xs) ys = omega (arith, sum_acks-append xs ys)

  pub sum_pending-set :
      (ts : List Target) (i : ℕ) (t : Target)
      → i < length ts
      → sum_pending (set ts i t) + weight_of (get_or ts i empty_target)
        ≡ sum_pending ts + weight_of t
  sum_pending-set [] i t h = absurd (omega arith)
  sum_pending-set (x ∷ xs) zero t h = omega arith
  sum_pending-set (x ∷ xs) (suc i) t h = omega (arith, sum_pending-set xs i t (omega arith))

  -- The receipt stands for the feedback of its target.
  terminal_ack-outstanding :
      {p : Policy} (t : ℕ) (result : Result) (now before after : ℕ)
      → (target_at p t).pending.occupied ≡ true
      → IsBalanced p
      → outstanding (terminal_ack p t result now before after) ≡ outstanding p
  terminal_ack-outstanding {p} t result now before after e h =
      let a = receipt p t result now before after in
      let order = terminal_ack-waiting t result now before after e h in
      let acks = ap sum_acks order ∙ sum_acks-append (waiting p) (a ∷ []) in
      let v : Target = vacated (target_at p t) in
      let pending = sum_pending-set p.targets t v (occupied-inside p.targets t e) in
      let old : weight_of (target_at p t) ≡ weight a.sequence a.source_visit = rw e refl in
      let same : (terminal_ack p t result now before after).targets ≡ set p.targets t v =
        unfold terminal_ack in refl in
      omega (arith, acks, pending, old, ap sum_pending same)

  pub drop_pending-outstanding :
      {p : Policy} (t : ℕ) (result : Result) (now : ℕ)
      → IsBalanced p
      → outstanding (drop_pending p t result now) ≡ outstanding p
  unfolding drop_pending
  drop_pending-outstanding {p} t result now h =
      let w = decayed p t now in
      if_elim (λ (q : Policy). outstanding q ≡ outstanding p) (target_at p t).pending.occupied
        (λ e. terminal_ack-outstanding t result now w w e h) (λ _. refl)

  cancel_all-outstanding :
      (n now i : ℕ) {p : Policy} → IsBalanced p → outstanding (cancel_all now n i p) ≡ outstanding p
  unfolding cancel_all
  cancel_all-outstanding zero now i h = refl
  cancel_all-outstanding (suc n) now i h =
      cancel_all-outstanding n now (i + 1) (drop_pending-Keeps i cancelled now h).balanced
      ∙ drop_pending-outstanding i cancelled now h

  retarget-outstanding :
      (ts : List Target) (i : ℕ) (t : Target)
      → weight_of t ≡ weight_of (get_or ts i empty_target)
      → i < length ts
      → sum_pending (set ts i t) ≡ sum_pending ts
  retarget-outstanding ts i t e k = omega (arith, sum_pending-set ts i t k, e)

  learn-outstanding :
      (p : Policy) (i after now : ℕ)
      → (target_at p i).pending.occupied ≡ true
      → outstanding (learn p i after now) ≡ outstanding p
  unfolding learn
  learn-outstanding p i after now e =
      let t = target_at p i in
      let active = if random_dwell p.config then t.pending.value.outcome == 1 else t.active in
      let t' : Target = record t { active = active; boost = after; boost_time = now } in
      if_elim (λ (q : Policy). outstanding q ≡ outstanding p) (t.pending.value.outcome == 0)
        (λ _. refl)
        (λ _.
          omega (arith, retarget-outstanding p.targets i t' refl (occupied-inside p.targets i e)))

  consume-outstanding :
      (now i : ℕ) {p : Policy} → IsBalanced p → outstanding (consume now i p) ≡ outstanding p
  unfolding consume
  consume-outstanding now i {p} h =
      let f = (target_at p i).pending in
      let before = decayed p i now in
      let after = boosted p f.value before in
      let Q : Policy → Type 0 = λ q. outstanding q ≡ outstanding p in
      if_elim Q (not f.occupied) (λ _. refl)
        (λ o.
          if_elim Q (ltb p.delay (sub64 now f.received) || ltb p.age (sub64 now f.value.valid_end))
            (λ _. terminal_ack-outstanding i expired now before before (ground arith) h)
            (λ _.
              let l = learn-Keeps i after now (ground arith) h in
              terminal_ack-outstanding i applied now before after l.1 l.0.balanced
              ∙ learn-outstanding p i after now (ground arith)))

  weigh-outstanding :
      (now : ℕ) (ms : List Bool) (i : ℕ) {p : Policy}
      → IsBalanced p
      → outstanding (weigh now ms i p).0 ≡ outstanding p
  unfolding weigh
  weigh-outstanding now [] i h = refl
  weigh-outstanding now (m ∷ ms) i h =
      weigh-outstanding now ms (i + 1) (consume-Keeps now i h).balanced
      ∙ consume-outstanding now i h

  choose-outstanding :
      (p : Policy) (now : ℕ) (mask : List Bool) (ws : List ℕ) (draw : ℕ)
      → outstanding (choose p now mask ws draw).2 ≡ outstanding p
  unfolding choose
  choose-outstanding p now mask ws draw = ground arith

  -- the result of a call that may not have returned
  abbrev pub IsSettled : Policy → Option (ℤ × Option Choice × Policy) → Type 0
  IsSettled p none = Unit
  IsSettled p (some (e, c, q)) = outstanding q ≡ outstanding p

  drawn-IsSettled :
      (d : Option (ℕ × ℕ)) (q : Policy) (now : ℕ) (mask : List Bool) (ws : List ℕ)
      → IsSettled q (drawn d q now mask ws)
  unfolding drawn
  drawn-IsSettled none q now mask ws = tt
  drawn-IsSettled (some (draw, rng)) q now mask ws =
      choose-outstanding (record q { rng = rng }) now mask ws draw

  IsSettled-trans :
      (o : Option (ℤ × Option Choice × Policy)) (p q : Policy)
      → outstanding q ≡ outstanding p
      → IsSettled q o
      → IsSettled p o
  IsSettled-trans none p q a b = tt
  IsSettled-trans (some (e, c, r)) p q a b = b ∙ a

  lottery-IsSettled :
      (fuel : ℕ) {p : Policy} (now : ℕ) (mask : List Bool)
      → IsBalanced p
      → IsSettled p (lottery fuel p now mask)
  unfolding lottery
  lottery-IsSettled fuel {p} now mask h =
      IsSettled-trans (lottery fuel p now mask) p (weigh now mask 0 p).0
        (weigh-outstanding now mask 0 h)
        (drawn-IsSettled _ (weigh now mask 0 p).0 now mask (weigh now mask 0 p).1)

  select_random-IsSettled :
      (r : Option ℤ) (fuel : ℕ) {p : Policy} (now : ℕ) (mask : List Bool)
      → IsBalanced p
      → IsSettled p (select_random r fuel p now mask)
  unfolding select_random
  select_random-IsSettled none fuel now mask h = lottery-IsSettled fuel now mask h
  select_random-IsSettled (some e) fuel {p} now mask h = refl

  select_ordered-outstanding :
      (p : Policy) (now : ℕ) → outstanding (select_ordered p now).2 ≡ outstanding p
  unfolding select_ordered
  select_ordered-outstanding p now = ground arith

  select_ready-IsSettled :
      (r : Option ℤ) (fuel : ℕ) {p : Policy} (now : ℕ)
      → IsBalanced p
      → IsSettled p (select_ready r fuel p now)
  unfolding select_ready
  select_ready-IsSettled none fuel {p} now h =
      if_elim (IsSettled p) (continuous p.config) (λ _. select_ordered-outstanding p now)
        (λ _.
          select_random-IsSettled (no_lottery p now (eligible p now p.config.targets 0)) fuel now
            (eligible p now p.config.targets 0) h)
  select_ready-IsSettled (some e) fuel {p} now h = refl

  pub select-IsSettled :
      (fuel : ℕ) {p : Policy} (now : ℕ) → IsBalanced p → IsSettled p (Select.select fuel p now)
  unfolding Select.select
  select-IsSettled fuel {p} now h = select_ready-IsSettled (not_ready p now) fuel now h

  pub finish_visit-outstanding :
      (p : Policy) (visit : ℕ) (intact : Bool)
      → outstanding (Receipts.finish_visit p visit intact).1 ≡ outstanding p
  unfolding Receipts.finish_visit
  finish_visit-outstanding p visit intact = ground arith

  started-outstanding :
      (p : Policy) (start i : ℕ)
      → sum_pending (set p.targets i (record (target_at p i) { last_start = start }))
        ≡ sum_pending p.targets
  started-outstanding p start i =
      let t : Target = record (target_at p i) { last_start = start } in
      elim (Bool-cases (ltb i (length p.targets))) [
        | inl k ↦ retarget-outstanding p.targets i t refl (ground arith)
        | inr k ↦ ap sum_pending (set-outside p.targets i t (ground arith))
      ]

  pub commit-outstanding :
      (p : Policy) (start : ℕ) → outstanding (Select.commit p start).1 ≡ outstanding p
  unfolding Select.commit
  commit-outstanding p start = ground (arith, started-outstanding p start p.selection.target)

  pub stop-outstanding :
      {p : Policy} (now : ℕ) → IsBalanced p → outstanding (Receipts.stop p now) ≡ outstanding p
  unfolding Receipts.stop
  stop-outstanding {p} now h =
      let all =
        cancel_all-outstanding p.config.targets (if ltb now p.last_now then p.last_now else now) 0
          h in
      if_elim (λ (q : Policy). outstanding q ≡ outstanding p) p.stopped (λ _. refl) (λ _. all)
