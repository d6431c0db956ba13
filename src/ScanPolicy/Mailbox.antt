-- ===== src/ScanPolicy/Mailbox.antt =====
-- The mailbox of iiod/spf-scan-policy.c: every accepted feedback has room for its receipt, which is
-- either still pending, or waits to be fetched, or has been fetched.
use libiio.Prelude.{
  ℕ, zero, suc, ◌+◌, ◌<◌, ◌≤◌, ◌≡◌, refl, ◌∙◌, ap, Bool, true, not, List, [], ◌∷◌, arith,
  if◌then◌else◌, if_elim, get_or, set, length, get_or-set, length-set, ltb, ◌==◌, add32, sub64,
  ◌||◌, ◌%◌,
}
use libiio.ScanPolicy.{
  Policy, Target, Result, cancelled, expired, applied, empty_target, ack_capacity, random_dwell,
}
use libiio.ScanPolicy.Receipts.{
  receipt, target_at, vacated, terminal_ack, drop_pending, cancel_all, decayed,
}
use libiio.ScanPolicy.Select.{learn, consume, weigh, boosted}

abbrev pub pending_of : Target → ℕ
pending_of t = if t.pending.occupied then 1 else 0

abbrev pub count_pending : List Target → ℕ
count_pending [] = 0
count_pending (t ∷ ts) = pending_of t + count_pending ts

pub count_pending-set :
    (ts : List Target) (i : ℕ) (t : Target)
    → i < length ts
    → count_pending (set ts i t) + pending_of (get_or ts i empty_target)
      ≡ count_pending ts + pending_of t
count_pending-set [] i t h = absurd (omega arith)
count_pending-set (x ∷ xs) zero t h = omega arith
count_pending-set (x ∷ xs) (suc i) t h = omega (arith, count_pending-set xs i t (omega arith))

pub occupied-inside :
    (ts : List Target) (i : ℕ) → (get_or ts i empty_target).pending.occupied ≡ true → i < length ts
occupied-inside [] i e = ground arith
occupied-inside (x ∷ xs) zero e = omega arith
occupied-inside (x ∷ xs) (suc i) e = omega (arith, occupied-inside xs i e)

pub record IsBalanced (p : Policy) : Type 0 where
  pub sized : length p.targets ≡ p.config.targets
  pub array : length p.acks ≡ ack_capacity
  pub head : p.ack_head < ack_capacity
  pub pending : p.pending_count ≡ count_pending p.targets
  pub room : p.ack_count + p.pending_count ≤ ack_capacity

-- the receipts that the policy owes
abbrev pub owed : Policy → ℕ
owed p = p.ack_count + p.pending_count

-- A change that owes as many receipts as before.
pub record Keeps (p q : Policy) : Type 0 where
  pub balanced : IsBalanced q
  pub owes : owed q ≡ owed p
  pub config : q.config ≡ p.config

pub Keeps-refl : {p : Policy} → IsBalanced p → Keeps p p
Keeps-refl h = record { balanced = h; owes = refl; config = refl }

pub Keeps-trans : {p q r : Policy} → Keeps p q → Keeps q r → Keeps p r
Keeps-trans a b = record {
  balanced = b.balanced;
  owes = b.owes ∙ a.owes;
  config = b.config ∙ a.config;
}

terminal_ack-Keeps :
    {p : Policy} (t : ℕ) (result : Result) (now before after : ℕ)
    → (target_at p t).pending.occupied ≡ true
    → IsBalanced p
    → Keeps p (terminal_ack p t result now before after)
unfolding terminal_ack
terminal_ack-Keeps {p} t result now before after e h = ground (
  arith,
  h,
  occupied-inside p.targets t e,
  count_pending-set p.targets t (vacated (target_at p t)) (occupied-inside p.targets t e),
  length-set p.targets t (vacated (target_at p t)),
  length-set p.acks (add32 p.ack_head p.ack_count % ack_capacity)
      (receipt p t result now before after),
)

pub drop_pending-Keeps :
    {p : Policy} (t : ℕ) (result : Result) (now : ℕ)
    → IsBalanced p
    → Keeps p (drop_pending p t result now)
unfolding drop_pending
drop_pending-Keeps {p} t result now h =
    let weight = decayed p t now in
    if_elim (Keeps p) (target_at p t).pending.occupied
      (λ e. terminal_ack-Keeps t result now weight weight e h) (λ _. Keeps-refl h)

pub drop_pending-vacates :
    (p : Policy) (t : ℕ) (result : Result) (now : ℕ)
    → t < length p.targets
    → pending_of (target_at (drop_pending p t result now) t) ≡ 0
unfolding drop_pending terminal_ack
drop_pending-vacates p t result now h =
    ground (arith, get_or-set p.targets t t (vacated (target_at p t)) empty_target h)

pub cancel_all-Keeps : (n now i : ℕ) {p : Policy} → IsBalanced p → Keeps p (cancel_all now n i p)
unfolding cancel_all
cancel_all-Keeps zero now i h = Keeps-refl h
cancel_all-Keeps (suc n) now i {p} h =
    let step = drop_pending-Keeps i cancelled now h in
    Keeps-trans step (cancel_all-Keeps n now (i + 1) step.balanced)

-- A target may change, but not its mailbox.
pub retarget-Keeps :
    {p : Policy} (i : ℕ) (t : Target)
    → t.pending.occupied ≡ (target_at p i).pending.occupied
    → i < length p.targets
    → IsBalanced p
    → Keeps p (record p { targets = set p.targets i t })
retarget-Keeps {p} i t e k h =
    ground (arith, h, count_pending-set p.targets i t k, length-set p.targets i t)

-- What is learned leaves the mailbox alone.
pub learn-Keeps :
    {p : Policy} (i after now : ℕ)
    → (target_at p i).pending.occupied ≡ true
    → IsBalanced p
    → Keeps p (learn p i after now) × ((target_at (learn p i after now) i).pending.occupied ≡ true)
unfolding learn
learn-Keeps {p} i after now e h =
    let k = occupied-inside p.targets i e in
    let t = target_at p i in
    let active = if random_dwell p.config then t.pending.value.outcome == 1 else t.active in
    let t' : Target = record t { active = active; boost = after; boost_time = now } in
    if_elim (λ (q : Policy). Keeps p q × ((target_at q i).pending.occupied ≡ true))
      (t.pending.value.outcome == 0) (λ _. (Keeps-refl h, e))
      (λ _. (
        retarget-Keeps i t' refl k h,
        ap (λ (x : Target). x.pending.occupied) (get_or-set p.targets i i t' empty_target k)
            ∙ ground (arith, e),
      ))

pub consume-Keeps : (now i : ℕ) {p : Policy} → IsBalanced p → Keeps p (consume now i p)
unfolding consume
consume-Keeps now i {p} h =
    let f = (target_at p i).pending in
    let before = decayed p i now in
    let after = boosted p f.value before in
    if_elim (Keeps p) (not f.occupied) (λ _. Keeps-refl h)
      (λ o.
        if_elim (Keeps p)
          (ltb p.delay (sub64 now f.received) || ltb p.age (sub64 now f.value.valid_end))
          (λ _. terminal_ack-Keeps i expired now before before (ground arith) h)
          (λ _.
            let l = learn-Keeps i after now (ground arith) h in
            Keeps-trans l.0 (terminal_ack-Keeps i applied now before after l.1 l.0.balanced)))

pub weigh-Keeps :
    (now : ℕ) (ms : List Bool) (i : ℕ) {p : Policy} → IsBalanced p → Keeps p (weigh now ms i p).0
unfolding weigh
weigh-Keeps now [] i h = Keeps-refl h
weigh-Keeps now (m ∷ ms) i {p} h =
    let step = consume-Keeps now i h in Keeps-trans step (weigh-Keeps now ms (i + 1) step.balanced)
