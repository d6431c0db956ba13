-- ===== src/ScanPolicy/Tests.antt =====
-- A scan of iiod/spf-scan-policy.c with two targets.
use mathlib.Core.List.{Perm}
use libiio.Prelude.{
  ◌*◌, ℕ, ◌+◌, ◌≤◌, ◌<◌, length, ◌≡◌, ◌↔◌, refl, true, List, [], ◌∷◌, replicate, Option, none, some,
  arith, ok,
}
use libiio.VisitQueue
use libiio.ScanPolicy
use libiio.ScanPolicy.{
  Config, Policy, Feedback, Choice, Ack, applied, accepted, fresh_policy, create_policy,
}
use libiio.ScanPolicy.Receipts
use libiio.ScanPolicy.Select
use libiio.ScanPolicy.Select.{feasible, total_of}
use libiio.ScanPolicy.Mailbox.{IsBalanced}
use libiio.ScanPolicy.Ledger
use libiio.ScanPolicy.Ledger.{Op, select, commit, finish_visit, feedback, take_ack, stop, step}
use libiio.ScanPolicy.Run.{
  run, accepted_weights, fetched_weights, accepted_in, fetched_in, receipts_balance,
}
use libiio.ScanPolicy.Owed.{sum_acks, sum_pending}
use libiio.ScanPolicy.Lottery.{weights, select-feasible}
use libiio.ScanPolicy.Appends.{entries, waiting}
use libiio.ScanPolicy.Order.{Queued, step-Queued}
use libiio.ScanPolicy.Deadline.{OnTime, others, feasible_iff}

-- one tick is a microsecond
abbrev config : Config
config = record {
  session = 1;
  generation = 1;
  seed = 88172645463325252;
  protocol_version = 2;
  source_rate_hz = 1000000;
  targets = 2;
  duration_ms = 10000;
  dwell_ms = 20;
  transition_budget_ms = 5;
  maximum_revisit_ms = 1000;
  feedback_age_ms = 1000;
  application_delay_ms = 1000;
  decay_ms = 1000;
  maximum_boost = 4;
  baseline = 1 ∷ 1 ∷ replicate 6 0;
  analysis_digest = replicate 32 1;
}

abbrev begun : Policy
begun = fresh_policy config 0

create_begun : create_policy config 0 ≡ (ok, some begun)
unfolding create_policy ScanPolicy.validate ScanPolicy.limits_broken ScanPolicy.version_broken
    ScanPolicy.digest_of ScanPolicy.baselines_broken ScanPolicy.slot_broken ScanPolicy.history
    ScanPolicy.scan_ticks fresh_policy VisitQueue.scan_rate_valid
create_begun = refl

feasible_iff_example : (feasible begun 0 1000 ≡ true) ↔ (
    (1000 + 5000 ≤ 0 + 1000000)
    × (order : List ℕ) × Perm order (others 1000000 0 0 begun.targets)
    × OnTime (20000 + 5000) (1000 + 5000) order)
unfolding fresh_policy ScanPolicy.scan_ticks
feasible_iff_example =
    feasible_iff begun 0 1000 (omega arith, (omega arith, tt)) (omega arith) (omega arith)
      (omega arith)

-- what is heard in the first visit
abbrev heard : Feedback
heard = record {
  session = 1;
  generation = 1;
  sequence = 1;
  visit = 0;
  valid_start = 6000;
  valid_end = 26000;
  target = 1;
  outcome = 1;
  analysis_digest = replicate 32 1;
}

abbrev script : List Op
script =
    select 64 100
    ∷ commit 6000
    ∷ finish_visit 0 true
    ∷ feedback heard 26001
    ∷ select 64 30000
    ∷ take_ack
    ∷ stop 30001
    ∷ []

abbrev or_begun : Option Policy → Policy
or_begun none = begun
or_begun (some p) = p

abbrev scanned : Policy
scanned = or_begun (run begun script)

script_counts : (accepted_in begun script ≡ 1) × (fetched_in begun script ≡ 1)
unfolding run accepted_in fetched_in step Ledger.accepted_by Ledger.fetched_by fresh_policy
    ScanPolicy.history ScanPolicy.scan_ticks Select.insert_deadline Select.sort_deadlines
    Select.serves Select.feasible Select.random64 Select.draw_from Select.eligible Select.boosted
    Select.learn Select.consume Select.weigh Select.pick Select.choose Select.drawn Select.lottery
    Select.too_early Select.not_ready Select.no_lottery Select.select_random Select.select_ready
    Select.select Select.commit Receipts.decayed Receipts.terminal_ack Receipts.finish_visit
    Receipts.same_bytes Receipts.seen_before Receipts.visit_mismatch Receipts.noted Receipts.deposit
    Receipts.drop_pending Receipts.receive Receipts.classify Receipts.refusal Receipts.answer
    Receipts.feedback Receipts.take_ack Receipts.cancel_all Receipts.stop
script_counts = (refl, refl)

script_returns : run begun script ≡ some scanned
unfolding run step fresh_policy ScanPolicy.history ScanPolicy.scan_ticks Select.insert_deadline
    Select.sort_deadlines Select.serves Select.feasible Select.random64 Select.draw_from
    Select.eligible Select.boosted Select.learn Select.consume Select.weigh Select.pick
    Select.choose Select.drawn Select.lottery Select.too_early Select.not_ready Select.no_lottery
    Select.select_random Select.select_ready Select.select Select.commit Receipts.decayed
    Receipts.terminal_ack Receipts.finish_visit Receipts.same_bytes Receipts.seen_before
    Receipts.visit_mismatch Receipts.noted Receipts.deposit Receipts.drop_pending Receipts.receive
    Receipts.classify Receipts.refusal Receipts.answer Receipts.feedback Receipts.take_ack
    Receipts.cancel_all Receipts.stop
script_returns = refl

-- a feedback weighed by its two numbers
abbrev by_numbers : ℕ → ℕ → ℕ
by_numbers sequence visit = 1000 * sequence + visit

receipts_balance_example :
    IsBalanced scanned
    × (accepted_in begun script
        ≡ fetched_in begun script + scanned.ack_count + scanned.pending_count)
    × (accepted_weights by_numbers begun script
        ≡ fetched_weights by_numbers begun script
          + sum_acks by_numbers (waiting scanned)
          + sum_pending by_numbers scanned.targets)
receipts_balance_example = receipts_balance by_numbers config 0 script create_begun script_returns

abbrev first_choice : Choice
first_choice = (or_begun (run begun (select 64 100 ∷ []))).selection

abbrev chosen : Policy
chosen = or_begun (run begun (select 64 100 ∷ []))

first_draw :
    (Select.select 64 begun 100 ≡ some (ok, some first_choice, chosen))
    × (first_choice.target ≡ 1)
    × (total_of (weights begun 100) ≡ 131072)
unfolding run step fresh_policy ScanPolicy.history ScanPolicy.scan_ticks Select.insert_deadline
    Select.sort_deadlines Select.serves Select.feasible Select.random64 Select.draw_from
    Select.eligible Select.boosted Select.learn Select.consume Select.weigh Select.pick
    Select.choose Select.drawn Select.lottery Select.too_early Select.not_ready Select.no_lottery
    Select.select_random Select.select_ready Select.select Select.commit Receipts.decayed
    Receipts.terminal_ack Receipts.finish_visit Receipts.same_bytes Receipts.seen_before
    Receipts.visit_mismatch Receipts.noted Receipts.deposit Receipts.drop_pending Receipts.receive
    Receipts.classify Receipts.refusal Receipts.answer Receipts.feedback Receipts.take_ack
    Receipts.cancel_all Receipts.stop
first_draw = (refl, refl, refl)

select-feasible_example :
    (first_choice.target < 2) × (feasible begun first_choice.target 100 ≡ true)
unfolding fresh_policy
select-feasible_example =
    select-feasible 64 begun 100 refl (omega (arith, first_draw.2)) first_draw.0

-- up to the second lottery, which applies the feedback
abbrev applying : List Op
applying =
    select 64 100 ∷ commit 6000 ∷ finish_visit 0 true ∷ feedback heard 26001 ∷ select 64 30000 ∷ []

abbrev receipted : Policy
receipted = or_begun (run begun applying)

applying_returns : (run begun applying ≡ some receipted) × (length (waiting receipted) ≡ 1)
unfolding entries run step fresh_policy ScanPolicy.history ScanPolicy.scan_ticks
    Select.insert_deadline Select.sort_deadlines Select.serves Select.feasible Select.random64
    Select.draw_from Select.eligible Select.boosted Select.learn Select.consume Select.weigh
    Select.pick Select.choose Select.drawn Select.lottery Select.too_early Select.not_ready
    Select.no_lottery Select.select_random Select.select_ready Select.select Select.commit
    Receipts.decayed Receipts.terminal_ack Receipts.finish_visit Receipts.same_bytes
    Receipts.seen_before Receipts.visit_mismatch Receipts.noted Receipts.deposit
    Receipts.drop_pending Receipts.receive Receipts.classify Receipts.refusal Receipts.answer
    Receipts.feedback Receipts.take_ack Receipts.cancel_all Receipts.stop
applying_returns = (refl, refl)

receipted-IsBalanced : IsBalanced receipted
receipted-IsBalanced =
    (receipts_balance by_numbers config 0 applying create_begun applying_returns.0).0

receipted_take : step receipted take_ack ≡ some (Receipts.take_ack receipted).2
unfolding step
receipted_take = refl

step-Queued_example : Queued receipted take_ack (Receipts.take_ack receipted).2
step-Queued_example = step-Queued take_ack receipted receipted-IsBalanced receipted_take
