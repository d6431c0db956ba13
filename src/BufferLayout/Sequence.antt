-- ===== src/BufferLayout/Sequence.antt =====
-- The numbers of refilled buffers: `spf_buffer_sequence_resolve` and `_commit` of iiod/spf-buffer-layout.c.
use libiio.Prelude.{
  ℕ, ◌+◌, ◌-◌, ◌/◌, ◌≡◌, ltb, ◌==◌, Bool, true, not, ◌||◌, if◌then◌else◌, Option, none, some, ℤ, ok,
  einval, erange, eoverflow, arith, max64,
}
use libiio.HopSession.{Session}
use libiio.HopSession.Ops.{expected_sequence, discontinuous}

-- `struct spf_buffer_sequence_state`
pub record SequenceState : Type 0 where
  pub previous_frame_end : ℕ
  pub previous_buffer_sequence : ℕ
  pub valid : Bool

-- `struct spf_buffer_sequence_result`
pub record SequenceResult : Type 0 where
  pub buffer_sequence : ℕ
  pub missing_samples_before : ℕ
  pub frame_end : ℕ

-- the part of `resolve` for a state that is valid
unfoldable pub following : SequenceState → ℕ → ℕ → ℤ × Option SequenceResult
following st first_sample samples =
    let missing = first_sample - st.previous_frame_end in
    let skipped = missing / samples in
    if ltb first_sample st.previous_frame_end
    then (erange, none)
    else if ltb (max64 - 1 - skipped) st.previous_buffer_sequence
    then (eoverflow, none)
    else (
      ok,
      some (record {
        buffer_sequence = st.previous_buffer_sequence + 1 + skipped;
        missing_samples_before = missing;
        frame_end = first_sample + samples;
      }),
    )

-- `spf_buffer_sequence_resolve`
unfoldable pub resolve_sequence : SequenceState → ℕ → ℕ → ℤ × Option SequenceResult
unfolding following
resolve_sequence st first_sample samples =
    let first_result : SequenceResult = record {
      buffer_sequence = 0;
      missing_samples_before = 0;
      frame_end = first_sample + samples;
    } in
    if samples == 0 || ltb (max64 - samples) first_sample
    then (einval, none)
    else if st.valid
    then following st first_sample samples
    else (ok, some first_result)

-- `spf_buffer_sequence_commit`
unfoldable pub commit_sequence : SequenceResult → SequenceState
commit_sequence r = record {
  previous_frame_end = r.frame_end;
  previous_buffer_sequence = r.buffer_sequence;
  valid = true;
}

-- the rates at which blocks may be missing
abbrev pub may_skip : Session → Bool
may_skip s = s.request.sample_rate_hz == 15000000 || s.request.sample_rate_hz == 20000000

-- A frame that is resolved from the state that a hop session has of the blocks before continues that session
-- exactly if the rate is one at which blocks may be missing or no sample is missing.
pub resolved-continuous :
    (s : Session) (st : SequenceState) (first samples : ℕ) (r : SequenceResult)
    → st.valid ≡ s.have_last_block
    → st.previous_frame_end ≡ s.status.last_block_end
    → st.previous_buffer_sequence ≡ s.status.last_block_sequence
    → resolve_sequence st first samples ≡ (ok, some r)
    → not (discontinuous s r.buffer_sequence first r.frame_end)
      ≡ (may_skip s || r.missing_samples_before == 0)
unfolding resolve_sequence following discontinuous expected_sequence
resolved-continuous s st first samples r a b c e = ground arith
