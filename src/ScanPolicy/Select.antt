-- ===== src/ScanPolicy/Select.antt =====
-- `spf_scan_policy_select` and `spf_scan_policy_commit` of iiod/spf-scan-policy.c: which targets can
-- be scanned next without another target missing its deadline, and the lottery among those.
use Prim.Native.Nat.{bit_and, bit_xor}
use libiio.Prelude.{
  ℕ, zero, suc, ◌+◌, ◌-◌, ◌*◌, ◌/◌, ◌%◌, ◌^◌, Bool, true, false, not, ◌&&◌, ◌||◌, List, [], ◌∷◌,
  Option, none, some, ltb, leb, ◌==◌, if◌then◌else◌, get_or, set, add64, sub64, add32, sub32, max64,
  word32, word64, ℤ, ok, einval, eshutdown, ebusy, erange, eoverflow, etime, enodata,
}
use libiio.ScanPolicy.{
  applied, expired, Feedback, Choice, ScanVisit, Target, Policy, continuous, random_dwell, ticks,
  weight_one,
}
use libiio.ScanPolicy.Receipts.{target_at, visit_at, decayed, terminal_ack}

-- the latest deadline comes first in the list
unfoldable pub insert_deadline : ℕ → List ℕ → List ℕ
insert_deadline d [] = d ∷ []
insert_deadline d (x ∷ xs) =
    let rest = insert_deadline d xs in if ltb d x then x ∷ rest else d ∷ x ∷ xs

-- the loop that sorts the deadlines of the targets other than the candidate, from target `i` on
unfoldable pub sort_deadlines : ℕ → ℕ → ℕ → List Target → List ℕ → List ℕ
sort_deadlines revisit candidate i [] sorted = sorted
sort_deadlines revisit candidate i (t ∷ ts) sorted =
    sort_deadlines revisit candidate (i + 1) ts
      (if i == candidate then sorted else insert_deadline (add64 t.last_start revisit) sorted)

abbrev pub reverse_onto : List ℕ → List ℕ → List ℕ
reverse_onto [] ys = ys
reverse_onto (x ∷ xs) ys = reverse_onto xs (x ∷ ys)

-- the loop that serves the deadlines in order, each taking `slot`
unfoldable pub serves : ℕ → ℕ → List ℕ → Bool
serves slot t [] = true
serves slot t (d ∷ ds) =
    let rest = serves slot (add64 t slot) ds in if ltb d (add64 t slot) then false else rest

unfoldable pub feasible : Policy → ℕ → ℕ → Bool
unfolding sort_deadlines serves
feasible p candidate now =
    let t = add64 now p.transition in
    if ltb (add64 (target_at p candidate).last_start p.revisit) t
    then false
    else serves (add64 p.dwell p.transition) t
        (reverse_onto (sort_deadlines p.revisit candidate 0 p.targets []) [])

-- xorshift64*; the result and the new state
unfoldable pub random64 : ℕ → ℕ × ℕ
random64 rng =
    let a = bit_xor rng (rng / 2 ^ 12) in
    let b = bit_xor a (a * 2 ^ 25 % word64) in
    let c = bit_xor b (b / 2 ^ 27) in (c * 2685821657736338717 % word64, c)

-- the loop of rejections, on fuel: the draw and the new state
unfoldable pub draw_from : ℕ → ℕ → ℕ → Option (ℕ × ℕ)
unfolding random64
draw_from zero threshold rng = none
draw_from (suc n) threshold rng =
    let (draw, rng') = random64 rng in
    let rest = draw_from n threshold rng' in if ltb draw threshold then rest else some (draw, rng')

-- which of `n` targets from `i` on are feasible
unfoldable pub eligible : Policy → ℕ → ℕ → ℕ → List Bool
unfolding feasible
eligible p now zero i = []
eligible p now (suc n) i = feasible p i now ∷ eligible p now n (i + 1)

-- the bits of `mask`, from the bit of value `bit` on
abbrev pub mask_bits : ℕ → List Bool → ℕ
mask_bits bit [] = 0
mask_bits bit (b ∷ bs) = (if b then bit else 0) + mask_bits (2 * bit) bs

-- the weight that a pending feedback leads to; other outcomes leave it as it is
unfoldable pub boosted : Policy → Feedback → ℕ → ℕ
boosted p f before =
    if f.outcome == 1
    then p.config.maximum_boost * weight_one % word32
    else if f.outcome == 2
    then add32 weight_one (sub32 before weight_one / 2)
    else before

-- what an outcome that is known sets in its target
unfoldable pub learn : Policy → ℕ → ℕ → ℕ → Policy
learn p i after now =
    let t = target_at p i in
    let outcome = t.pending.value.outcome in
    let active = if random_dwell p.config then outcome == 1 else t.active in
    if outcome == 0 then p else record p {
      targets = set p.targets i (record t { active = active; boost = after; boost_time = now });
    }

-- the pending feedback of target `i` is applied, or it has expired
unfoldable pub consume : ℕ → ℕ → Policy → Policy
unfolding terminal_ack decayed boosted learn
consume now i p =
    let f = (target_at p i).pending in
    let before = decayed p i now in
    let after = boosted p f.value before in
    if not f.occupied
    then p
    else if ltb p.delay (sub64 now f.received) || ltb p.age (sub64 now f.value.valid_end)
    then terminal_ack p i expired now before before
    else terminal_ack (learn p i after now) i applied now before after

-- the loop over the targets: the weights of the eligible ones, and 0 for the others
unfoldable pub weigh : ℕ → List Bool → ℕ → Policy → Policy × List ℕ
unfolding consume decayed
weigh now [] i p = (p, [])
weigh now (m ∷ ms) i p =
    let p' = consume now i p in
    let w = if m then get_or p.config.baseline i 0 * decayed p' i now else 0 in
    let (p'', ws) = weigh now ms (i + 1) p' in (p'', w ∷ ws)

abbrev pub total_of : List ℕ → ℕ
total_of [] = 0
total_of (w ∷ ws) = w + total_of ws

-- the loop that finds the target of a draw; `chosen` is 0 at first
unfoldable pub pick : ℕ → ℕ → List ℕ → ℕ
pick draw i [] = 0
pick draw i (w ∷ ws) = let rest = pick (draw - w) (i + 1) ws in if ltb draw w then i else rest

-- `spf_scan_policy_select` behind its first tests, for the continuous version
unfoldable pub select_ordered : Policy → ℕ → ℤ × Option Choice × Policy
select_ordered p now =
    let chosen = p.visit_count % p.config.targets in
    let choice : Choice = record {
      visit = p.visit_count;
      selection_counter = now;
      target = chosen;
      eligible_mask = 2 ^ chosen;
      effective_weight = weight_one;
      dwell_ms = 20;
      deadline_forced = true;
    } in
    if p.visit_count == max64 || ltb (max64 - now) (p.dwell + p.transition)
    then (eoverflow, none, p)
    else if ltb p.revisit (sub64 (add64 now p.transition) (target_at p chosen).last_start)
    then (etime, none, p)
    else (ok, some choice, record p { selection = choice; last_now = now; selected = true })

-- the end of `spf_scan_policy_select`: the choice is recorded before the last test
unfoldable pub choose : Policy → ℕ → List Bool → List ℕ → ℕ → ℤ × Option Choice × Policy
unfolding pick
choose p now mask weights draw =
    let bits = mask_bits 1 mask in
    let chosen = pick (draw % total_of weights) 0 weights in
    let choice : Choice = record {
      visit = p.visit_count;
      selection_counter = now;
      target = chosen;
      eligible_mask = bits;
      effective_weight = get_or weights chosen 0 % word32;
      dwell_ms =
          (if random_dwell p.config && not (target_at p chosen).active
            then 120
            else p.config.dwell_ms);
      deadline_forced = bit_and bits (bits - 1) == 0 && ltb 1 p.config.targets;
    } in
    let q = record p { selection = choice } in
    if ltb (p.end - now) (ticks p.config choice.dwell_ms + p.transition)
    then (enodata, none, q)
    else (ok, some choice, record q { last_now = now; selected = true })

-- the result of the loop of rejections is used, if there is one
unfoldable pub drawn :
    Option (ℕ × ℕ) → Policy → ℕ → List Bool → List ℕ → Option (ℤ × Option Choice × Policy)
unfolding choose
drawn none q now mask weights = none
drawn (some (draw, rng)) q now mask weights =
    some (choose (record q { rng = rng }) now mask weights draw)

-- the lottery among the eligible targets; `none` if `fuel` draws have all been rejected
unfoldable pub lottery : ℕ → Policy → ℕ → List Bool → Option (ℤ × Option Choice × Policy)
unfolding weigh draw_from drawn
lottery fuel p now mask =
    let (q, weights) = weigh now mask 0 p in
    let total = total_of weights in
    drawn (draw_from fuel ((word64 - total) % total) q.rng) q now mask weights

-- has the clock gone back, or is the last visit still running?
unfoldable pub too_early : Policy → ℕ → Bool
too_early p now =
    ltb now p.last_now
    || (not (p.visit_count == 0) && ltb now (visit_at p ((p.visit_count - 1) % p.max_visits)).end)

-- the first tests of `spf_scan_policy_select`, with the error of the first that fails
unfoldable pub not_ready : Policy → ℕ → Option ℤ
unfolding too_early
not_ready p now =
    if p.stopped
    then some eshutdown
    else if p.selected
    then some ebusy
    else if too_early p now
    then some erange
    else none

-- those in front of the lottery
unfoldable pub no_lottery : Policy → ℕ → List Bool → Option ℤ
no_lottery p now mask =
    let dwell = if random_dwell p.config then ticks p.config 120 else p.dwell in
    if leb p.end now || ltb (p.end - now) (dwell + p.transition)
    then some enodata
    else if leb p.max_visits p.visit_count
    then some eoverflow
    else if mask_bits 1 mask == 0
    then some etime
    else none

unfoldable pub select_random :
    Option ℤ → ℕ → Policy → ℕ → List Bool → Option (ℤ × Option Choice × Policy)
unfolding lottery
select_random (some e) fuel p now mask = some (e, none, p)
select_random none fuel p now mask = lottery fuel p now mask

unfoldable pub select_ready : Option ℤ → ℕ → Policy → ℕ → Option (ℤ × Option Choice × Policy)
unfolding select_ordered eligible select_random no_lottery
select_ready (some e) fuel p now = some (e, none, p)
select_ready none fuel p now =
    let mask = eligible p now p.config.targets 0 in
    if continuous p.config
    then some (select_ordered p now)
    else select_random (no_lottery p now mask) fuel p now mask

unfoldable pub select : ℕ → Policy → ℕ → Option (ℤ × Option Choice × Policy)
unfolding not_ready select_ready
select fuel p now = select_ready (not_ready p now) fuel p now

-- `spf_scan_policy_commit`
unfoldable pub commit : Policy → ℕ → ℤ × Policy
commit p start =
    let c = p.selection in
    let length = ticks p.config c.dwell_ms in
    let t = target_at p c.target in
    let v : ScanVisit = record {
      start = start;
      end = add64 start length;
      target = c.target;
      finished = false;
      intact = false;
    } in
    if not p.selected || p.stopped
    then (einval, p)
    else if ltb start c.selection_counter
    then (etime, p)
    else if ltb p.end start || ltb (p.end - start) length
    then (enodata, p)
    else if continuous p.config && ltb p.revisit (sub64 start t.last_start)
    then (etime, p)
    else (
      ok,
      record p {
        visits = set p.visits (p.visit_count % p.max_visits) v;
        visit_count = add64 p.visit_count 1;
        targets = set p.targets c.target (record t { last_start = start });
        selected = false;
        last_now = start;
      },
    )
