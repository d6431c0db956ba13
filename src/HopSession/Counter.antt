-- ===== src/HopSession/Counter.antt =====
-- The counters of iiod/spf-hop-session.c: the low half of a sample counter, extended to 64 bits next
-- to a reference.
use libiio.Prelude.{
  ℕ, ◌+◌, ◌-◌, ◌*◌, ◌/◌, ◌%◌, ◌<◌, ◌≡◌, ltb, leb, ◌&&◌, if◌then◌else◌, arith, word32, word64, add64,
}

-- `|` of the two halves is their sum.
abbrev pub candidate : ℕ → ℕ → ℕ
candidate reference observed = reference / word32 * word32 + observed % word32

unfoldable pub extend_counter_near : ℕ → ℕ → ℕ
extend_counter_near reference observed =
    let c = candidate reference observed in
    if ltb c reference && ltb 0x80000000 (reference - c)
    then add64 c word32
    else if ltb reference c && ltb 0x80000000 (c - reference) && leb word32 c
    then c - word32
    else c

-- A 64-bit counter less than 2^31 samples from a 64-bit reference is recovered from any number with the same low
-- 32 bits.
pub extend_counter_near-recovers :
    (reference counter observed : ℕ)
    → reference < word64
    → counter < word64
    → observed % word32 ≡ counter % word32
    → counter < reference + 0x80000000
    → reference < counter + 0x80000000
    → extend_counter_near reference observed ≡ counter
unfolding extend_counter_near
extend_counter_near-recovers reference counter observed r c same above below = ground arith

pub extend_counter_near-in :
    (reference observed : ℕ) → reference < word64 → extend_counter_near reference observed < word64
unfolding extend_counter_near
extend_counter_near-in reference observed r = ground arith
