-- ===== src/ScanPolicy/Appends.antt =====
-- What each call of iiod/spf-scan-policy.c adds to the receipts that wait in its circular array.
use libiio.Prelude.{
  append_nil, append_assoc, ℕ, zero, suc, ◌+◌, ◌%◌, ◌<◌, ◌≡◌, ◌≢◌, refl, sym, ◌∙◌, ap, ap₂, subst,
  Bool, true, false, not, ◌||◌, List, [], ◌∷◌, ◌++◌, Option, none, some, arith, get_or, get_or-set,
  set, length, ltb, leb, ◌==◌, if◌then◌else◌, if_elim, ℤ, add32, sub64,
}
use libiio.ScanPolicy.{
  Policy, Ack, Choice, Feedback, Result, superseded, cancelled, expired, applied, empty_ack,
  ack_capacity, continuous,
}
use libiio.ScanPolicy.Receipts
use libiio.ScanPolicy.Receipts.{
  receipt, vacated, target_at, terminal_ack, drop_pending, noted, deposit, receive, classify,
  answer, refusal, seen_before, cancel_all, decayed,
}
use libiio.ScanPolicy.Select
use libiio.ScanPolicy.Select.{
  learn, boosted, consume, weigh, choose, drawn, lottery, select_ordered, select_random,
  select_ready, not_ready, no_lottery, eligible,
}
use libiio.ScanPolicy.Mailbox.{
  IsBalanced, drop_pending-Keeps, learn-Keeps, consume-Keeps, occupied-inside, count_pending-set,
}

-- `n` entries of the array from `head` on, going round at 64
unfoldable pub entries : List Ack → ℕ → ℕ → List Ack
entries acks head zero = []
entries acks head (suc n) = get_or acks head empty_ack ∷ entries acks ((head + 1) % 64) n

-- the receipts that wait to be fetched, oldest first
abbrev pub waiting : Policy → List Ack
waiting p = entries p.acks p.ack_head p.ack_count

-- A write behind `n` entries leaves those, and adds one at the end.
entries-append :
    (acks : List Ack) (a : Ack) (n head : ℕ)
    → length acks ≡ 64
    → head < 64
    → n < 64
    → entries (set acks ((head + n) % 64) a) head (suc n) ≡ entries acks head n ++ (a ∷ [])
unfolding entries
entries-append acks a zero head l h k =
    let e : (head + 0) % 64 ≡ head = omega arith in
    rw e (ground (arith, get_or-set acks head head a empty_ack (omega (arith, l))))
entries-append acks a (suc n) head l h k =
    let e : (head + suc n) % 64 ≡ ((head + 1) % 64 + n) % 64 = omega arith in
    let ne : ((head + suc n) % 64) ≢ head = λ q. omega arith in
    let r = entries-append acks a n ((head + 1) % 64) l (omega arith) (omega arith) in
    let s = get_or-set acks ((head + suc n) % 64) head a empty_ack (omega (arith, l)) in
    ap₂ (λ x xs. x ∷ xs) (ground (arith, s, ne))
      (subst
        (λ i.
          entries (set acks i a) ((head + 1) % 64) (suc n)
          ≡ entries acks ((head + 1) % 64) n ++ (a ∷ []))
        (sym e) r)

pub record Appends (p q : Policy) : Type 0 where
  pub new : List Ack
  pub order : waiting q ≡ waiting p ++ new

pub none_new : (p q : Policy) → waiting q ≡ waiting p → Appends p q
none_new p q e = record { new = []; order = e ∙ sym (append_nil (waiting p)) }

Appends-trans : {p q r : Policy} → Appends p q → Appends q r → Appends p r
Appends-trans {p} a b = record {
  new = a.new ++ b.new;
  order = b.order ∙ ap (λ ws. ws ++ b.new) a.order ∙ append_assoc (waiting p) a.new b.new;
}

pub terminal_ack-waiting :
    {p : Policy} (t : ℕ) (result : Result) (now before after : ℕ)
    → (target_at p t).pending.occupied ≡ true
    → IsBalanced p
    → waiting (terminal_ack p t result now before after)
      ≡ waiting p ++ (receipt p t result now before after ∷ [])
unfolding terminal_ack
terminal_ack-waiting {p} t result now before after e h =
    let k : p.ack_count < 64 = ground (
      arith,
      h,
      count_pending-set p.targets t (vacated (target_at p t)) (occupied-inside p.targets t e),
    ) in
    let i : add32 p.ack_head p.ack_count % 64 ≡ (p.ack_head + p.ack_count) % 64 =
      omega (arith, h, k) in
    let c : add32 p.ack_count 1 ≡ suc p.ack_count = omega (arith, k) in
    rw (i, c)
      (entries-append p.acks (receipt p t result now before after) p.ack_count p.ack_head h.array
        h.head k)

terminal_ack-Appends :
    {p : Policy} (t : ℕ) (result : Result) (now before after : ℕ)
    → (target_at p t).pending.occupied ≡ true
    → IsBalanced p
    → Appends p (terminal_ack p t result now before after)
terminal_ack-Appends {p} t result now before after e h = record {
  new = receipt p t result now before after ∷ [];
  order = terminal_ack-waiting t result now before after e h;
}

drop_pending-Appends :
    {p : Policy} (t : ℕ) (result : Result) (now : ℕ)
    → IsBalanced p
    → Appends p (drop_pending p t result now)
unfolding drop_pending
drop_pending-Appends {p} t result now h =
    let weight = decayed p t now in
    if_elim (Appends p) (target_at p t).pending.occupied
      (λ e. terminal_ack-Appends t result now weight weight e h) (λ _. none_new p p refl)

cancel_all-Appends : (n now i : ℕ) {p : Policy} → IsBalanced p → Appends p (cancel_all now n i p)
unfolding cancel_all
cancel_all-Appends zero now i {p} h = none_new p p refl
cancel_all-Appends (suc n) now i {p} h =
    Appends-trans (drop_pending-Appends i cancelled now h)
      (cancel_all-Appends n now (i + 1) (drop_pending-Keeps i cancelled now h).balanced)

learn-waiting : (p : Policy) (i after now : ℕ) → waiting (learn p i after now) ≡ waiting p
unfolding learn
learn-waiting p i after now =
    if_elim (λ (q : Policy). waiting q ≡ waiting p) ((target_at p i).pending.value.outcome == 0)
      (λ _. refl) (λ _. refl)

consume-Appends : (now i : ℕ) {p : Policy} → IsBalanced p → Appends p (consume now i p)
unfolding consume
consume-Appends now i {p} h =
    let f = (target_at p i).pending in
    let before = decayed p i now in
    let after = boosted p f.value before in
    if_elim (Appends p) (not f.occupied) (λ _. none_new p p refl)
      (λ o.
        if_elim (Appends p)
          (ltb p.delay (sub64 now f.received) || ltb p.age (sub64 now f.value.valid_end))
          (λ _. terminal_ack-Appends i expired now before before (ground arith) h)
          (λ _.
            let l = learn-Keeps i after now (ground arith) h in
            Appends-trans (none_new p (learn p i after now) (learn-waiting p i after now))
              (terminal_ack-Appends i applied now before after l.1 l.0.balanced)))

weigh-Appends :
    (now : ℕ) (ms : List Bool) (i : ℕ) {p : Policy} → IsBalanced p → Appends p (weigh now ms i p).0
unfolding weigh
weigh-Appends now [] i {p} h = none_new p p refl
weigh-Appends now (m ∷ ms) i h =
    Appends-trans (consume-Appends now i h)
      (weigh-Appends now ms (i + 1) (consume-Keeps now i h).balanced)

choose-waiting :
    (p : Policy) (now : ℕ) (mask : List Bool) (ws : List ℕ) (draw : ℕ)
    → waiting (choose p now mask ws draw).2 ≡ waiting p
unfolding choose
choose-waiting p now mask ws draw = ground arith

-- the result of a call that may not have returned
abbrev pub Appended : Policy → Option (ℤ × Option Choice × Policy) → Type 0
Appended p none = Unit
Appended p (some (e, c, q)) = Appends p q

drawn-Appended :
    (d : Option (ℕ × ℕ)) (q : Policy) (now : ℕ) (mask : List Bool) (ws : List ℕ)
    → Appended q (drawn d q now mask ws)
unfolding drawn
drawn-Appended none q now mask ws = tt
drawn-Appended (some (draw, rng)) q now mask ws =
    none_new q (choose (record q { rng = rng }) now mask ws draw).2
      (choose-waiting (record q { rng = rng }) now mask ws draw)

Appended-trans :
    (o : Option (ℤ × Option Choice × Policy)) {p q : Policy}
    → Appends p q
    → Appended q o
    → Appended p o
Appended-trans none a b = tt
Appended-trans (some (e, c, r)) a b = Appends-trans a b

lottery-Appended :
    (fuel : ℕ) {p : Policy} (now : ℕ) (mask : List Bool)
    → IsBalanced p
    → Appended p (lottery fuel p now mask)
unfolding lottery
lottery-Appended fuel {p} now mask h =
    Appended-trans (lottery fuel p now mask) (weigh-Appends now mask 0 h)
      (drawn-Appended _ (weigh now mask 0 p).0 now mask (weigh now mask 0 p).1)

select_random-Appended :
    (r : Option ℤ) (fuel : ℕ) {p : Policy} (now : ℕ) (mask : List Bool)
    → IsBalanced p
    → Appended p (select_random r fuel p now mask)
unfolding select_random
select_random-Appended none fuel now mask h = lottery-Appended fuel now mask h
select_random-Appended (some e) fuel {p} now mask h = none_new p p refl

select_ordered-waiting : (p : Policy) (now : ℕ) → waiting (select_ordered p now).2 ≡ waiting p
unfolding select_ordered
select_ordered-waiting p now = ground arith

pub select_ready-Appended :
    (r : Option ℤ) (fuel : ℕ) {p : Policy} (now : ℕ)
    → IsBalanced p
    → Appended p (select_ready r fuel p now)
unfolding select_ready
select_ready-Appended none fuel {p} now h =
    if_elim (Appended p) (continuous p.config)
      (λ _. none_new p (select_ordered p now).2 (select_ordered-waiting p now))
      (λ _.
        select_random-Appended (no_lottery p now (eligible p now p.config.targets 0)) fuel now
          (eligible p now p.config.targets 0) h)
select_ready-Appended (some e) fuel {p} now h = none_new p p refl

pub commit-waiting : (p : Policy) (start : ℕ) → waiting (Select.commit p start).1 ≡ waiting p
unfolding Select.commit
commit-waiting p start = ground arith

pub finish_visit-waiting :
    (p : Policy) (visit : ℕ) (intact : Bool)
    → waiting (Receipts.finish_visit p visit intact).1 ≡ waiting p
unfolding Receipts.finish_visit
finish_visit-waiting p visit intact = ground arith

receive-Appends :
    {p : Policy} (f : Feedback) (now : ℕ) → IsBalanced p → Appends p (receive p f now).1
unfolding receive noted deposit
receive-Appends {p} f now h =
    if_elim (λ (r : Result × Policy). Appends p r.1)
      (leb f.sequence (target_at p f.target).channel_sequence) (λ _. none_new p p refl)
      (λ _.
        if_elim (λ (r : Result × Policy). Appends p r.1)
          (leb ack_capacity (add32 p.ack_count p.pending_count)) (λ _. none_new p p refl)
          (λ _.
            Appends-trans (drop_pending-Appends f.target superseded now h)
              (none_new (drop_pending p f.target superseded now) _ refl)))

classify-Appends :
    (s : Option Bool) {p : Policy} (f : Feedback) (now : ℕ)
    → IsBalanced p
    → Appends p (classify s p f now).1
unfolding classify
classify-Appends none {p} f now h = none_new p p refl
classify-Appends (some true) {p} f now h = none_new p p refl
classify-Appends (some false) f now h = receive-Appends f now h

answer-Appends :
    (r : Option Result) {p : Policy} (f : Feedback) (now : ℕ)
    → IsBalanced p
    → Appends p (answer r p f now).1
unfolding answer
answer-Appends (some result) {p} f now h = none_new p p refl
answer-Appends none {p} f now h = classify-Appends (seen_before p f.sequence) f now h

pub feedback-Appends :
    {p : Policy} (f : Feedback) (now : ℕ) → IsBalanced p → Appends p (Receipts.feedback p f now).1
unfolding Receipts.feedback
feedback-Appends {p} f now h = answer-Appends (refusal p f now) f now h

pub stop-Appends : {p : Policy} (now : ℕ) → IsBalanced p → Appends p (Receipts.stop p now)
unfolding Receipts.stop
stop-Appends {p} now h =
    let a =
      cancel_all-Appends p.config.targets (if ltb now p.last_now then p.last_now else now) 0 h in
    if_elim (Appends p) p.stopped (λ _. none_new p p refl)
      (λ _. record { new = a.new; order = a.order })
