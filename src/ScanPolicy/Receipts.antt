-- ===== src/ScanPolicy/Receipts.antt =====
-- The parts of iiod/spf-scan-policy.c that touch the acknowledgements: pending feedback, its
-- terminal receipts, and the calls that deliver, fetch and cancel.
use Prim.Native.Nat.{bit_and, bit_or}
use libiio.Prelude.{
  ℕ, zero, suc, ◌+◌, ◌-◌, ◌*◌, ◌/◌, ◌%◌, ◌^◌, Bool, true, false, not, ◌&&◌, ◌||◌, List, [], ◌∷◌,
  Option, none, some, ltb, leb, ◌==◌, if◌then◌else◌, get_or, set, sub64, add32, sub32, max64,
  word32, word64, ℤ, ok, eagain, einval, ealready,
}
use libiio.ScanPolicy.{
  Result, accepted, duplicate, expired, wrong_session, rejected, superseded, mailbox_full, applied,
  cancelled, Feedback, Ack, ScanVisit, Pending, Target, Policy, continuous, weight_one,
  ack_capacity, empty_ack, empty_visit, empty_target,
}

abbrev pub target_at : Policy → ℕ → Target
target_at p t = get_or p.targets t empty_target

abbrev pub visit_at : Policy → ℕ → ScanVisit
visit_at p i = get_or p.visits i empty_visit

-- `decayed`: the sum of 32 bits wraps, and the product stays in 64
unfoldable pub decayed : Policy → ℕ → ℕ → ℕ
decayed p target now =
    let t = target_at p target in
    let elapsed = sub64 now t.boost_time in
    if leb p.decay elapsed
    then weight_one
    else add32 weight_one
        (sub32 t.boost weight_one * (p.decay - elapsed) % word64 / p.decay % word32)

abbrev pub is_applied : Result → Bool
is_applied applied = true
is_applied _ = false

-- the receipt that `terminal_ack` writes
abbrev pub receipt : Policy → ℕ → Result → ℕ → ℕ → ℕ → Ack
receipt p target result now before after =
    let f = (target_at p target).pending in
    record {
      sequence = f.value.sequence;
      source_visit = f.value.visit;
      first_visit = (if is_applied result then p.visit_count else max64);
      received_counter = f.received;
      application_counter = now;
      target = target;
      result = result;
      old_boost = before;
      new_boost = after;
    }

-- `f->occupied = false`
abbrev pub vacated : Target → Target
vacated t =
    let f = t.pending in
    record t { pending = record { value = f.value; received = f.received; occupied = false } }

unfoldable pub terminal_ack : Policy → ℕ → Result → ℕ → ℕ → ℕ → Policy
terminal_ack p target result now before after = record p {
  acks =
      set p.acks (add32 p.ack_head p.ack_count % ack_capacity)
        (receipt p target result now before after);
  ack_count = add32 p.ack_count 1;
  pending_count = sub32 p.pending_count 1;
  targets = set p.targets target (vacated (target_at p target));
}

-- `spf_scan_policy_finish_visit`
unfoldable pub finish_visit : Policy → ℕ → Bool → ℤ × Policy
finish_visit p visit intact =
    let i = visit % p.max_visits in
    let v = visit_at p i in
    if leb p.visit_count visit || ltb p.max_visits (p.visit_count - visit)
    then (einval, p)
    else if v.finished
    then (ealready, p)
    else (
      ok,
      record p {
        visits = set p.visits i (record {
          start = v.start;
          end = v.end;
          target = v.target;
          finished = true;
          intact = intact;
        });
      },
    )

-- `memcmp(a, b, 32) == 0` on two arrays of 32 bytes
unfoldable pub same_bytes : List ℕ → List ℕ → Bool
same_bytes [] [] = true
same_bytes [] (y ∷ ys) = false
same_bytes (x ∷ xs) [] = false
same_bytes (x ∷ xs) (y ∷ ys) = x == y && same_bytes xs ys

-- has this sequence number of the last 64 been seen? `none` if it is older than those
unfoldable pub seen_before : Policy → ℕ → Option Bool
seen_before p sequence =
    let distance = p.highest_sequence - sequence in
    if ltb p.highest_sequence sequence
    then some false
    else if leb 64 distance
    then none
    else some (not (bit_and p.seen (2 ^ distance) == 0))

-- The tests of `spf_scan_policy_feedback` on the visit that a feedback names.
unfoldable pub visit_mismatch : Policy → Feedback → ℕ → Bool
visit_mismatch p f now =
    let v = visit_at p f.visit in
    not v.finished
    || not v.intact
    || not (f.target == v.target)
    || not (f.valid_start == v.start)
    || not (f.valid_end == v.end)
    || ltb now v.end
    || ltb now p.last_now

-- the window of sequence numbers after `sequence`
unfoldable pub noted : Policy → ℕ → Policy
noted p sequence =
    let distance = sequence - p.highest_sequence in
    let moved = ltb p.highest_sequence sequence in
    let highest = if moved then sequence else p.highest_sequence in
    let seen =
      if moved then (if leb 64 distance then 0 else p.seen * 2 ^ distance % word64) else p.seen in
    record p { highest_sequence = highest; seen = bit_or seen (2 ^ (highest - sequence)) }

-- the feedback goes into the mailbox of its target
unfoldable pub deposit : Policy → Feedback → ℕ → Policy
deposit p f now =
    let t = target_at p f.target in
    let pending : Pending = record { value = f; received = now; occupied = true } in
    record p {
      targets =
          set p.targets f.target (record t { channel_sequence = f.sequence; pending = pending });
      pending_count = add32 p.pending_count 1;
      last_now = now;
    }

-- a receipt for a pending feedback that never came to be applied
unfoldable pub drop_pending : Policy → ℕ → Result → ℕ → Policy
unfolding terminal_ack decayed
drop_pending p t result now =
    let weight = decayed p t now in
    if (target_at p t).pending.occupied then terminal_ack p t result now weight weight else p

-- the end of `spf_scan_policy_feedback`, for a sequence number that is new
unfoldable pub receive : Policy → Feedback → ℕ → Result × Policy
unfolding drop_pending noted deposit
receive p f now =
    if leb f.sequence (target_at p f.target).channel_sequence
    then (superseded, p)
    else if leb ack_capacity (add32 p.ack_count p.pending_count)
    then (mailbox_full, p)
    else (accepted, deposit (noted (drop_pending p f.target superseded now) f.sequence) f now)

-- the tests of the sequence number, by what the window of the last 64 says
unfoldable pub classify : Option Bool → Policy → Feedback → ℕ → Result × Policy
unfolding receive
classify none p f now = (expired, p)
classify (some true) p f now = (duplicate, p)
classify (some false) p f now = receive p f now

-- the tests up to those of the sequence number, with the result of the first that fails
unfoldable pub refusal : Policy → Feedback → ℕ → Option Result
unfolding visit_mismatch same_bytes
refusal p f now =
    if p.stopped || continuous p.config
    then some rejected
    else if not (f.session == p.config.session) || not (f.generation == p.config.generation)
    then some wrong_session
    else if f.sequence == 0
        || leb p.config.targets f.target
        || ltb 2 f.outcome
        || leb p.visit_count f.visit
        || not (same_bytes f.analysis_digest p.config.analysis_digest)
    then some rejected
    else if visit_mismatch p f now
    then some rejected
    else if ltb p.age (now - (visit_at p f.visit).end)
    then some expired
    else none

unfoldable pub answer : Option Result → Policy → Feedback → ℕ → Result × Policy
unfolding classify seen_before
answer (some result) p f now = (result, p)
answer none p f now = classify (seen_before p f.sequence) p f now

unfoldable pub feedback : Policy → Feedback → ℕ → Result × Policy
unfolding refusal answer
feedback p f now = answer (refusal p f now) p f now

-- `spf_scan_policy_take_ack`
unfoldable pub take_ack : Policy → ℤ × Option Ack × Policy
take_ack p = if p.ack_count == 0 then (eagain, none, p) else (
  ok,
  some (get_or p.acks p.ack_head empty_ack),
  record p { ack_head = add32 p.ack_head 1 % ack_capacity; ack_count = p.ack_count - 1 },
)

-- the loop of `spf_scan_policy_stop` over `n` targets from `i` on
unfoldable pub cancel_all : ℕ → ℕ → ℕ → Policy → Policy
unfolding drop_pending
cancel_all now zero i p = p
cancel_all now (suc n) i p = cancel_all now n (i + 1) (drop_pending p i cancelled now)

unfoldable pub stop : Policy → ℕ → Policy
unfolding cancel_all
stop p now =
    let now' = if ltb now p.last_now then p.last_now else now in
    if p.stopped then p else record (cancel_all now' p.config.targets 0 p) { stopped = true }
