-- ===== src/ScanPolicy/Lottery.antt =====
-- The lottery of iiod/spf-scan-policy.c only draws targets that are feasible.
use native.Mathlib.Nat.{mod-lt}
use libiio.Prelude.{
  ℕ, zero, suc, ◌+◌, ◌-◌, ◌%◌, ◌<◌, ◌≡◌, ◌≢◌, refl, ◌∙◌, ap, Bool, true, false, List, [], ◌∷◌,
  Option, none, some, arith, get_or, ltb, Bool-cases, inl, inr, ℤ, ok,
}
use libiio.ScanPolicy.{Policy, Choice, continuous}
use libiio.ScanPolicy.Select
use libiio.ScanPolicy.Select.{
  feasible, eligible, consume, weigh, total_of, pick, choose, drawn, lottery, select_random,
  select_ready, no_lottery, not_ready,
}

-- What a draw below the total of the weights finds has a weight.
pick-weight :
    (ws : List ℕ) (draw i : ℕ)
    → draw < total_of ws
    → (k : ℕ) × (pick draw i ws ≡ i + k) × (get_or ws k 0 ≢ 0)
unfolding pick
pick-weight [] draw i h = absurd (omega arith)
pick-weight (w ∷ ws) draw i h = elim (Bool-cases (ltb draw w)) [
  | inl e ↦ (0, ground arith, ground arith)
  | inr e ↦
      let (k, at, some_weight) = pick-weight ws (draw - w) (i + 1) (ground arith) in
      (suc k, ground arith, some_weight)
]

-- Only what the mask lets through has a weight.
weigh-mask :
    (now : ℕ) (ms : List Bool) (i : ℕ) (p : Policy) (k : ℕ)
    → get_or (weigh now ms i p).1 k 0 ≢ 0
    → get_or ms k false ≡ true
unfolding weigh
weigh-mask now [] i p k h = absurd (h refl)
weigh-mask now (m ∷ ms) i p zero h = ground arith
weigh-mask now (m ∷ ms) i p (suc k) h = weigh-mask now ms (i + 1) (consume now i p) k h

eligible-feasible :
    (p : Policy) (now n i k : ℕ)
    → get_or (eligible p now n i) k false ≡ true
    → (k < n) × (feasible p (i + k) now ≡ true)
unfolding eligible
eligible-feasible p now zero i k h = ground arith
eligible-feasible p now (suc n) i zero h =
    (omega arith, (let e : i + 0 ≡ i = omega arith in rw e h))
eligible-feasible p now (suc n) i (suc k) h =
    let r = eligible-feasible p now n (i + 1) k h in
    let e : i + 1 + k ≡ i + suc k = omega arith in
    (omega (arith, r.0), ap (λ j. feasible p j now) (omega arith) ∙ r.1)

-- the weights of the lottery at `now`
abbrev pub weights : Policy → ℕ → List ℕ
weights p now = (weigh now (eligible p now p.config.targets 0) 0 p).1

choose-target :
    (p : Policy) (now : ℕ) (mask : List Bool) (ws : List ℕ) (draw : ℕ) {c : Choice} {q : Policy}
    → choose p now mask ws draw ≡ (ok, some c, q)
    → c.target ≡ pick (draw % total_of ws) 0 ws
unfolding choose
choose-target p now mask ws draw e = ground arith

drawn-target :
    (d : Option (ℕ × ℕ)) (p : Policy) (now : ℕ) (mask : List Bool) (ws : List ℕ) {c : Choice}
    {q : Policy}
    → drawn d p now mask ws ≡ some (ok, some c, q)
    → (draw : ℕ) × (c.target ≡ pick (draw % total_of ws) 0 ws)
unfolding drawn
drawn-target none p now mask ws e = ground arith
drawn-target (some (draw, rng)) p now mask ws {c} {q} e =
    (draw, choose-target (record p { rng = rng }) now mask ws draw {c = c} {q = q} (ground arith))

select_random-target :
    (r : Option ℤ) (fuel : ℕ) (p : Policy) (now : ℕ) {c : Choice} {q : Policy}
    → select_random r fuel p now (eligible p now p.config.targets 0) ≡ some (ok, some c, q)
    → (draw : ℕ) × (c.target ≡ pick (draw % total_of (weights p now)) 0 (weights p now))
unfolding select_random lottery
select_random-target (some e) fuel p now h = ground arith
select_random-target none fuel p now {c} {q} h =
    drawn-target _ _ now (eligible p now p.config.targets 0) (weights p now) {c = c} {q = q} h

select_ready-target :
    (r : Option ℤ) (fuel : ℕ) (p : Policy) (now : ℕ) {c : Choice} {q : Policy}
    → continuous p.config ≡ false
    → select_ready r fuel p now ≡ some (ok, some c, q)
    → (draw : ℕ) × (c.target ≡ pick (draw % total_of (weights p now)) 0 (weights p now))
unfolding select_ready
select_ready-target (some e) fuel p now k h = ground arith
select_ready-target none fuel p now {c} {q} k h =
    select_random-target (no_lottery p now (eligible p now p.config.targets 0)) fuel p now {c = c}
      {q = q} (ground arith)

-- A choice that the lottery makes, where the weights of the eligible targets are not all 0, is one of
-- the targets in use, and is feasible: no other target is made to miss its deadline.
pub select-feasible :
    (fuel : ℕ) (p : Policy) (now : ℕ) {c : Choice} {q : Policy}
    → continuous p.config ≡ false
    → total_of (weights p now) ≢ 0
    → Select.select fuel p now ≡ some (ok, some c, q)
    → (c.target < p.config.targets) × (feasible p c.target now ≡ true)
unfolding Select.select
select-feasible fuel p now {c} {q} k some_weight h =
    let (draw, target) = select_ready-target (not_ready p now) fuel p now {c = c} {q = q} k h in
    let (j, at, weight) =
      pick-weight (weights p now) (draw % total_of (weights p now)) 0
        (mod-lt draw (omega (arith, some_weight))) in
    let r =
      eligible-feasible p now p.config.targets 0 j
        (weigh-mask now (eligible p now p.config.targets 0) 0 p j weight) in
    (omega (arith, r.0, target, at), ap (λ i. feasible p i now) (target ∙ at) ∙ r.1)
