-- ===== src/ScanPolicy.antt =====
-- iiod/spf-scan-policy.c: the lottery that chooses the next target to scan, and the feedback that
-- moves its weights. Here the types, the validation of a configuration and the initial policy.
-- The arrays that have one entry for each of the eight targets are one list of `Target`s.
pub mod Receipts
pub mod Select
pub mod Mailbox
pub mod Ledger
pub mod Run
pub mod Deadline
pub mod Lottery
pub mod Appends
pub mod Owed
pub mod Paid
pub mod Order
mod Tests
use Prim.Native.Nat.{bit_or}
use libiio.Prelude.{
  ℕ, zero, suc, ◌+◌, ◌-◌, ◌*◌, ◌/◌, Bool, true, false, not, ◌&&◌, ◌||◌, List, [], ◌∷◌, Option, none,
  some, ltb, leb, ◌==◌, if◌then◌else◌, length, replicate, max64, ℤ, ok, is_zero, einval, eopnotsupp,
  erange, eoverflow, e2big,
}
use libiio.VisitQueue.{scan_rate_valid}

abbrev pub target_count : ℕ
target_count = 8

abbrev pub ack_capacity : ℕ
ack_capacity = 64

abbrev pub weight_one : ℕ
weight_one = 65536

abbrev pub random_dwell_version : ℕ
random_dwell_version = 3

abbrev pub fixed_dwell_version : ℕ
fixed_dwell_version = 4

abbrev pub continuous_version : ℕ
continuous_version = 5

-- `struct spf_scan_policy_config`
pub record Config : Type 0 where
  pub session : ℕ
  pub generation : ℕ
  pub seed : ℕ
  pub protocol_version : ℕ
  pub source_rate_hz : ℕ
  pub targets : ℕ
  pub duration_ms : ℕ
  pub dwell_ms : ℕ
  pub transition_budget_ms : ℕ
  pub maximum_revisit_ms : ℕ
  pub feedback_age_ms : ℕ
  pub application_delay_ms : ℕ
  pub decay_ms : ℕ
  pub maximum_boost : ℕ
  pub baseline : List ℕ
  pub analysis_digest : List ℕ

-- `enum spf_scan_feedback_result`
pub data Result : Type 0 where
  accepted duplicate expired wrong_session rejected superseded mailbox_full applied cancelled :
      Result

-- `struct spf_scan_feedback`; an outcome is 0 (unknown), 1 (active) or 2 (quiet)
pub record Feedback : Type 0 where
  pub session : ℕ
  pub generation : ℕ
  pub sequence : ℕ
  pub visit : ℕ
  pub valid_start : ℕ
  pub valid_end : ℕ
  pub target : ℕ
  pub outcome : ℕ
  pub analysis_digest : List ℕ

-- `struct spf_scan_ack`
pub record Ack : Type 0 where
  pub sequence : ℕ
  pub source_visit : ℕ
  pub first_visit : ℕ
  pub received_counter : ℕ
  pub application_counter : ℕ
  pub target : ℕ
  pub result : Result
  pub old_boost : ℕ
  pub new_boost : ℕ

-- `struct spf_scan_choice`
pub record Choice : Type 0 where
  pub visit : ℕ
  pub selection_counter : ℕ
  pub target : ℕ
  pub eligible_mask : ℕ
  pub effective_weight : ℕ
  pub dwell_ms : ℕ
  pub deadline_forced : Bool

-- `struct scan_visit`
pub record ScanVisit : Type 0 where
  pub start : ℕ
  pub end : ℕ
  pub target : ℕ
  pub finished : Bool
  pub intact : Bool

-- `struct pending_feedback`
pub record Pending : Type 0 where
  pub value : Feedback
  pub received : ℕ
  pub occupied : Bool

-- the entries of a target in the arrays of `struct spf_scan_policy`
pub record Target : Type 0 where
  pub last_start : ℕ
  pub boost_time : ℕ
  pub boost : ℕ
  pub active : Bool
  pub channel_sequence : ℕ
  pub pending : Pending

-- `struct spf_scan_policy`
pub record Policy : Type 0 where
  pub config : Config
  pub visits : List ScanVisit
  pub start : ℕ
  pub end : ℕ
  pub dwell : ℕ
  pub transition : ℕ
  pub revisit : ℕ
  pub age : ℕ
  pub delay : ℕ
  pub decay : ℕ
  pub rng : ℕ
  pub last_now : ℕ
  pub visit_count : ℕ
  pub max_visits : ℕ
  pub targets : List Target
  pub highest_sequence : ℕ
  pub seen : ℕ
  pub acks : List Ack
  pub ack_head : ℕ
  pub ack_count : ℕ
  pub pending_count : ℕ
  pub selection : Choice
  pub selected : Bool
  pub stopped : Bool

-- what `calloc` leaves
abbrev pub empty_feedback : Feedback
empty_feedback = record {
  session = 0;
  generation = 0;
  sequence = 0;
  visit = 0;
  valid_start = 0;
  valid_end = 0;
  target = 0;
  outcome = 0;
  analysis_digest = replicate 32 0;
}

abbrev pub empty_ack : Ack
empty_ack = record {
  sequence = 0;
  source_visit = 0;
  first_visit = 0;
  received_counter = 0;
  application_counter = 0;
  target = 0;
  result = accepted;
  old_boost = 0;
  new_boost = 0;
}

abbrev pub empty_choice : Choice
empty_choice = record {
  visit = 0;
  selection_counter = 0;
  target = 0;
  eligible_mask = 0;
  effective_weight = 0;
  dwell_ms = 0;
  deadline_forced = false;
}

abbrev pub empty_visit : ScanVisit
empty_visit = record { start = 0; end = 0; target = 0; finished = false; intact = false }

abbrev pub empty_target : Target
empty_target = record {
  last_start = 0;
  boost_time = 0;
  boost = 0;
  active = false;
  channel_sequence = 0;
  pending = record { value = empty_feedback; received = 0; occupied = false };
}

-- `spf_scan_ticks` of iiod/spf-scan-rate.h: the arguments have 32 bits, so nothing wraps.
unfoldable pub scan_ticks : ℕ → ℕ → ℕ
scan_ticks rate ms = rate * ms / 1000

abbrev pub ticks : Config → ℕ → ℕ
ticks c ms = scan_ticks c.source_rate_hz ms

abbrev pub continuous : Config → Bool
continuous c = c.protocol_version == continuous_version

abbrev pub random_dwell : Config → Bool
random_dwell c = c.protocol_version == random_dwell_version

abbrev pub fixed_dwell : Config → Bool
fixed_dwell c = c.protocol_version == fixed_dwell_version

-- the five rates of the continuous and the random-dwell scans
abbrev pub listed_rate : ℕ → Bool
listed_rate r = r == 1250000 || r == 2500000 || r == 5000000 || r == 7500000 || r == 10000000

-- the first test of `spf_scan_policy_validate`: -EINVAL
unfoldable pub limits_broken : Config → Bool
limits_broken c =
    c.session == 0
    || c.generation == 0
    || c.seed == 0
    || c.targets == 0
    || ltb target_count c.targets
    || (if continuous c
        then not (c.duration_ms == 0)
          || not (c.dwell_ms == 20)
          || not (c.targets == 8)
          || not (listed_rate c.source_rate_hz)
          || not (c.maximum_boost == 1)
        else c.duration_ms == 0 || ltb 300000 c.duration_ms)
    || (if random_dwell c || fixed_dwell c
        then not (c.dwell_ms == 120) && not (c.dwell_ms == 240) && not (c.dwell_ms == 360)
        else ltb c.dwell_ms 20 || ltb 240 c.dwell_ms)
    || c.transition_budget_ms == 0
    || ltb 100 c.transition_budget_ms
    || c.maximum_revisit_ms == 0
    || ltb 10000 c.maximum_revisit_ms
    || c.feedback_age_ms == 0
    || ltb 10000 c.feedback_age_ms
    || c.application_delay_ms == 0
    || ltb 10000 c.application_delay_ms
    || c.decay_ms == 0
    || ltb 60000 c.decay_ms
    || ltb c.maximum_boost 1
    || ltb 16 c.maximum_boost

-- the second: -EOPNOTSUPP
unfoldable pub version_broken : Config → Bool
version_broken c =
    ltb continuous_version c.protocol_version
    || (fixed_dwell c && not (c.source_rate_hz == 2500000))
    || (random_dwell c && not (listed_rate c.source_rate_hz))
    || (not (random_dwell c) && not (fixed_dwell c) && not (scan_rate_valid c.source_rate_hz))

-- the loop that ORs the bytes of the digest
unfoldable pub digest_of : ℕ → List ℕ → ℕ
digest_of digest [] = digest
digest_of digest (b ∷ bs) = digest_of (bit_or digest b) bs

-- the loop over the baseline weights, from index `i` on
unfoldable pub baselines_broken : Config → ℕ → List ℕ → Bool
baselines_broken c i [] = false
baselines_broken c i (w ∷ ws) =
    (ltb i c.targets && (w == 0 || ltb 1024 w || (continuous c && not (w == 1))))
    || (leb c.targets i && not (w == 0))
    || baselines_broken c (i + 1) ws

-- the last test: -ERANGE
unfoldable pub slot_broken : Config → Bool
slot_broken c =
    let slot = c.dwell_ms + c.transition_budget_ms in
    ltb c.maximum_revisit_ms (slot * c.targets)
    || ltb c.application_delay_ms slot
    || (not (continuous c) && ltb c.duration_ms slot)

unfoldable pub validate : Config → ℤ
validate c =
    if limits_broken c
    then einval
    else if version_broken c
    then eopnotsupp
    else if digest_of 0 c.analysis_digest == 0
    then einval
    else if baselines_broken c 0 c.baseline
    then einval
    else if slot_broken c
    then erange
    else ok

-- how many visits the policy keeps
unfoldable pub history : Config → ℕ
history c =
    if continuous c then 128 else c.duration_ms / (if random_dwell c then 120 else c.dwell_ms) + 1

-- the targets that are in use, and the rest
abbrev pub used_target : ℕ → Target
used_target start = record empty_target {
  last_start = start;
  boost_time = start;
  boost = weight_one;
}

unfoldable pub fresh_policy : Config → ℕ → Policy
fresh_policy c start = record {
  config = c;
  visits = replicate (history c) empty_visit;
  start = start;
  end = (if continuous c then max64 else start + ticks c c.duration_ms);
  dwell = ticks c c.dwell_ms;
  transition = ticks c c.transition_budget_ms;
  revisit = ticks c c.maximum_revisit_ms;
  age = ticks c c.feedback_age_ms;
  delay = ticks c c.application_delay_ms;
  decay = ticks c c.decay_ms;
  rng = c.seed;
  last_now = start;
  visit_count = 0;
  max_visits = history c;
  targets = replicate c.targets (used_target start);
  highest_sequence = 0;
  seen = 0;
  acks = replicate ack_capacity empty_ack;
  ack_head = 0;
  ack_count = 0;
  pending_count = 0;
  selection = empty_choice;
  selected = false;
  stopped = false;
}

-- `spf_scan_policy_create`, whose allocations succeed
unfoldable pub create_policy : Config → ℕ → ℤ × Option Policy
create_policy c start =
    if not (is_zero (validate c))
    then (validate c, none)
    else if ltb (max64 - ticks c c.duration_ms - ticks c c.maximum_revisit_ms) start
    then (eoverflow, none)
    else if ltb 16384 (history c)
    then (e2big, none)
    else (ok, some (fresh_policy c start))
