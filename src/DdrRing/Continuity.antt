-- ===== src/DdrRing/Continuity.antt =====
-- `observe_samples` of iiod/ddr-ring-core.c against the sequence of frames that it is shown.
use libiio.Prelude.{
  ℕ, ◌+◌, ◌<◌, ◌≡◌, refl, Bool, true, false, List, [], ◌∷◌, ◌==◌, if◌then◌else◌, arith, word64, All,
  Bool-cases, inl, inr,
}
use libiio.DdrRing.{Ring, observe_samples}

-- the calls for frames that begin at these counters, of `samples` samples each
unfoldable pub observe_all : ℕ → Ring → List ℕ → Ring
observe_all samples r [] = r
observe_all samples r (first ∷ rest) = observe_all samples (observe_samples r first samples).1 rest

-- the end of the longest gapless run of frames from the first one on; `next` is where a frame
-- would have to begin
unfoldable pub gapless_end : ℕ → ℕ → List ℕ → ℕ
gapless_end samples next [] = next
gapless_end samples next (first ∷ rest) =
    if first == next then gapless_end samples (first + samples) rest else next

-- whether there is a frame that does not begin where the one before it ends
unfoldable pub has_gap : ℕ → ℕ → List ℕ → Bool
has_gap samples next [] = false
has_gap samples next (first ∷ rest) =
    if first == next then has_gap samples (first + samples) rest else true

abbrev pub Fits : ℕ → ℕ → Type 0
Fits samples first = first + samples < word64

-- After a gap nothing moves the two counters that report it.
observe-broken :
    (samples : ℕ) (frames : List ℕ) (r : Ring)
    → 0 < samples
    → All (Fits samples) frames
    → r.continuity_broken ≡ true
    → r.first_unavailable_valid ≡ true
    → let r' = observe_all samples r frames in
      (r'.last_contiguous ≡ r.last_contiguous)
      × (r'.first_unavailable ≡ r.first_unavailable)
      × (r'.continuity_broken ≡ true)
unfolding observe_all observe_samples
observe-broken samples [] r p a b f = (refl, refl, b)
observe-broken samples (x ∷ xs) r p a b f =
    ground (arith, observe-broken samples xs (observe_samples r x samples).1 p a.1)

observe-running :
    (samples : ℕ) (frames : List ℕ) (r : Ring)
    → 0 < samples
    → All (Fits samples) frames
    → r.continuity_broken ≡ false
    → r.first_unavailable_valid ≡ false
    → r.expected_sample_valid ≡ true
    → r.last_contiguous ≡ r.expected_sample
    → let r' = observe_all samples r frames in
      (r'.last_contiguous ≡ gapless_end samples r.expected_sample frames)
      × (r'.continuity_broken ≡ has_gap samples r.expected_sample frames)
      × (r'.first_unavailable ≡ (
          if has_gap samples r.expected_sample frames
          then gapless_end samples r.expected_sample frames
          else r.first_unavailable))
unfolding observe_all observe_samples gapless_end has_gap
observe-running samples [] r p a b f e l = (l, b, refl)
observe-running samples (x ∷ xs) r p a b f e l = elim (Bool-cases (x == r.expected_sample)) [
  | inl same ↦ ground (arith, observe-running samples xs (observe_samples r x samples).1 p a.1)
  | inr gap ↦ ground (arith, observe-broken samples xs (observe_samples r x samples).1 p a.1)
]

-- A ring whose three flags are clear reports, after one or more frames of the same positive number
-- of samples that do not reach the end of the 64-bit counter, exactly the end of the gapless run from the first frame on; continuity is broken
-- exactly if some frame does not begin where the one before it ends, and then the first
-- unavailable sample is that end.
pub observe_all_lem :
    (samples first : ℕ) (rest : List ℕ) (r : Ring)
    → 0 < samples
    → All (Fits samples) (first ∷ rest)
    → r.continuity_broken ≡ false
    → r.first_unavailable_valid ≡ false
    → r.expected_sample_valid ≡ false
    → let r' = observe_all samples r (first ∷ rest) in
      let end = gapless_end samples (first + samples) rest in
      let gap = has_gap samples (first + samples) rest in
      (r'.last_contiguous ≡ end)
      × (r'.continuity_broken ≡ gap)
      × (r'.first_unavailable ≡ (if gap then end else r.first_unavailable))
unfolding observe_all observe_samples
observe_all_lem samples first rest r p a b f e =
    ground (arith, observe-running samples rest (observe_samples r first samples).1 p a.1)
