-- ===== src/BufferLayout/Tests.antt =====
-- Layouts, frame numbers and coverage plans at concrete sizes.
use libiio.Prelude.{not, ◌||◌, ◌==◌, ◌≡◌, refl, true, false, [], some, arith, ok, einval}
use libiio.HopSession.{Session}
use libiio.HopSession.Ops.{fresh, discontinuous}
use libiio.HopProtocol.{Request}
use libiio.BufferLayout.{
  Layout, resolve, receivers_of, sized_layout, layout_of, IsSized, resolve-IsSized,
  receiver_rate_validate,
}
use libiio.BufferLayout.Sequence.{
  SequenceState, SequenceResult, resolve_sequence, following, may_skip, commit_sequence,
  resolved-continuous,
}
use libiio.BufferLayout.Coverage.{
  CoveragePlan, queued_observation_interval, coverage_plan_compute, IsCovering,
  coverage_plan_compute-IsCovering,
}

abbrev layout : Layout
layout = record {
  enabled_scan_mask = 3;
  receiver_count = 1;
  scan_bytes = 4;
  extra_samples = 2;
  samples_per_channel = 1000;
  iq_bytes_per_sample = 4;
  timestamp_words = 500;
  iq_bytes = 4000;
  raw_bytes = 4008;
}

layout_made : resolve 0xffffffff 1000 3 1 4 ≡ (ok, some layout)
unfolding resolve receivers_of sized_layout layout_of
layout_made = refl

resolve-IsSized_example : IsSized 0xffffffff layout
resolve-IsSized_example = resolve-IsSized 0xffffffff 1000 3 1 4 layout (omega arith) layout_made

wide_host_only : receiver_rate_validate 1 15000000 false ≡ einval
unfolding receiver_rate_validate
wide_host_only = refl

abbrev request : Request
request = record {
  required_features = 0x1f;
  flags = 3;
  session_id = 9;
  sample_rate_hz = 15000000;
  rf_bandwidth_hz = 10000000;
  if_offset_hz = 0;
  dwell_samples = 1000;
  transition_guard_samples = 10;
  dwell_count = 2;
  capture_span_samples = 2000;
  initial_profile = 0;
  profiles = [];
}

-- a session that has seen block 4, which ended at 5000
abbrev session : Session
session =
    let s = fresh request in
    record s {
      have_last_block = true;
      status = record s.status { last_block_sequence = 4; last_block_end = 5000 };
    }

abbrev state : SequenceState
state = record { previous_frame_end = 5000; previous_buffer_sequence = 4; valid = true }

-- two blocks of 1000 samples are missing
abbrev next : SequenceResult
next = record { buffer_sequence = 7; missing_samples_before = 2100; frame_end = 8100 }

next_resolved : resolve_sequence state 7100 1000 ≡ (ok, some next)
unfolding resolve_sequence following
next_resolved = refl

resolved-continuous_example :
    not (discontinuous session 7 7100 8100) ≡ (may_skip session || next.missing_samples_before == 0)
unfolding fresh
resolved-continuous_example =
    resolved-continuous session state 7100 1000 next refl refl refl next_resolved

next_committed :
    commit_sequence next
    ≡ record { previous_frame_end = 8100; previous_buffer_sequence = 7; valid = true }
unfolding commit_sequence
next_committed = refl

halved : queued_observation_interval 1000 800 ≡ (ok, some 500)
unfolding queued_observation_interval
halved = refl

abbrev plan : CoveragePlan
plan = record { window_samples = 5000; maximum_observations = 20 }

plan_made : coverage_plan_compute 1000 300 4 64 ≡ (ok, some plan)
unfolding coverage_plan_compute
plan_made = refl

coverage_plan_compute-IsCovering_example : IsCovering 1000 300 4 64 plan
coverage_plan_compute-IsCovering_example =
    coverage_plan_compute-IsCovering 1000 300 4 64 plan (omega arith) (omega arith) (omega arith)
      plan_made
