-- ===== src/VisitQueue/Ops.antt =====
-- The other operations of iiod/spf-visit-queue.c. The model starts behind the tests of the pointers
-- for NULL; an option is what goes out through a pointer.
use libiio.Prelude.{
  ℕ, ◌+◌, ◌-◌, ◌*◌, ◌/◌, ◌%◌, Bool, true, false, not, ◌&&◌, ◌||◌, List, [], ◌∷◌, ◌++◌, Option, none,
  some, ltb, leb, ◌==◌, if◌then◌else◌, length, add64, add32, sub32, max64, word64, ℤ, ok, einval,
  eshutdown, erange, eagain, ebusy, enoent, etimedout,
}
use libiio.VisitQueue.{
  Outcome, admitted, complete, skip_capacity, skip_age, invalid_gap, cancelled, is_admitted, Config,
  Slice, Visit, Queue, discard, terminate, over_visits,
}
use libiio.VisitQueue.Feed.{awaits_bind}

-- `now - at(q, 0)->reserved_at`, 0 without a visit
abbrev pub oldest_age : Queue → ℕ → ℕ
oldest_age q now = elim q.visits [ [] ↦ 0 | v ∷ vs ↦ now - v.reserved_at ]

-- is the clock behind the oldest reservation?
abbrev pub before_oldest : Queue → ℕ → Bool
before_oldest q now = elim q.visits [ [] ↦ false | v ∷ vs ↦ ltb now v.reserved_at ]

-- blocks that a visit may meet at any phase of the DMA frame boundary
unfoldable pub visit_blocks : Config → ℕ → ℕ
visit_blocks c samples = add32 (sub32 (add32 samples c.block_samples) 1 / c.block_samples) 1

unfoldable pub ticks_to_drain : Queue → ℕ → ℕ
ticks_to_drain q bytes =
    let c = q.config in
    ((q.reserved_bytes + bytes) * c.source_rate_hz + c.drain_bytes_per_second + (word64 - 1))
    % word64
    / c.drain_bytes_per_second

unfoldable pub no_capacity : Queue → ℕ → ℕ → Bool
no_capacity q blocks bytes =
    let c = q.config in
    length q.visits == c.maximum_visits
    || ltb (sub32 c.block_count c.headroom_blocks)
        (add32 (add32 blocks q.leased_blocks) q.reserved_blocks)
    || ltb c.maximum_bytes bytes
    || ltb (c.maximum_bytes - bytes) q.reserved_bytes

unfoldable pub too_old : Queue → ℕ → ℕ → ℕ → Bool
unfolding ticks_to_drain
too_old q samples bytes age =
    ltb q.config.maximum_age_ticks age
    || ltb (q.config.maximum_age_ticks - age) (add64 (ticks_to_drain q bytes) samples)

unfoldable pub new_visit : ℕ → ℕ → ℕ → ℕ → ℕ → Visit
new_visit id samples now blocks bytes = record {
  id = id;
  reserved_at = now;
  start = 0;
  end = 0;
  next = 0;
  bytes = bytes;
  samples = samples;
  remaining_blocks = blocks;
  slices = [];
  result = admitted;
  bound = false;
  closed = false;
  sending = false;
}

-- what `reserve` writes for a visit that it admits
unfoldable pub admit : Queue → ℕ → ℕ → ℕ → Queue
unfolding new_visit visit_blocks
admit q id samples now =
    let blocks = visit_blocks q.config samples in
    let bytes = samples * q.config.bytes_per_sample in
    let reserved = add64 q.reserved_bytes bytes in
    record q {
      visits = q.visits ++ (new_visit id samples now blocks bytes ∷ []);
      reserved_blocks = add32 q.reserved_blocks blocks;
      reserved_bytes = reserved;
      last_reserved_id = id;
      have_id = true;
      high_water_bytes = (if ltb q.high_water_bytes reserved then reserved else q.high_water_bytes);
    }

unfoldable pub reserve : Queue → ℕ → ℕ → ℕ → ℤ × Option Outcome × Queue
unfolding visit_blocks no_capacity too_old admit
reserve q id samples now =
    let bytes = samples * q.config.bytes_per_sample in
    let blocks = visit_blocks q.config samples in
    if samples == 0 || ltb (q.config.source_rate_hz * q.config.maximum_visit_ms / 1000) samples
    then (einval, none, q)
    else if q.cancelled
    then (eshutdown, none, q)
    else if q.have_id && leb id q.last_reserved_id
    then (erange, none, q)
    else if awaits_bind q.visits
    then (ebusy, none, q)
    else if q.have_source && ltb now q.last_source_end
    then (erange, none, q)
    else if before_oldest q now
    then (erange, none, q)
    else if no_capacity q blocks bytes
    then (ok, some skip_capacity, q)
    else if too_old q samples bytes (oldest_age q now)
    then (ok, some skip_age, q)
    else (ok, some admitted, admit q id samples now)

-- the last visit and the ones before it
unfoldable pub split_last : Visit → List Visit → List Visit × Visit
split_last v [] = ([], v)
split_last v (w ∷ vs) = let (r, l) = split_last w vs in (v ∷ r, l)

unfoldable pub bind_visit : Visit → ℕ → Visit
bind_visit v start = record v { start = start; next = start; end = start + v.samples; bound = true }

-- `bind` with the visits of the queue
unfoldable pub bind_last : Queue → ℕ → ℕ → List Visit → ℤ × Queue
unfolding split_last bind_visit
bind_last q id start [] = (einval, q)
bind_last q id start (w ∷ ws) =
    let (before, v) = split_last w ws in
    if q.cancelled
    then (einval, q)
    else if not (v.id == id) || v.bound || not (is_admitted v.result)
    then (einval, q)
    else if ltb start v.reserved_at || ltb start q.last_valid_end || ltb (max64 - v.samples) start
    then (erange, q)
    else (
      ok,
      record q { visits = before ++ (bind_visit v start ∷ []); last_valid_end = start + v.samples },
    )

unfoldable pub bind : Queue → ℕ → ℕ → ℤ × Queue
unfolding bind_last
bind q id start = bind_last q id start q.visits

-- the body of `close_window` for the visit that it finds
unfoldable pub close_visit : Queue → Visit → ℕ → ℤ × Queue × Visit
unfolding terminate
close_visit q v invalid =
    if not v.bound
    then (einval, q, v)
    else if v.closed
    then (ok, q, v)
    else if v.sending
    then (einval, q, v)
    else if ltb invalid v.end
    then (let (q', v') = terminate q (record v { closed = true }) invalid_gap in (ok, q', v'))
    else if v.next == v.end
    then (ok, q, record v { closed = true; result = complete })
    else (ok, q, record v { closed = true })

unfoldable pub close_in : Queue → List Visit → ℕ → ℕ → ℤ × Queue × List Visit
unfolding close_visit
close_in q [] id invalid = (enoent, q, [])
close_in q (v ∷ vs) id invalid =
    let rest = close_in q vs id invalid in
    if not (v.id == id)
    then (let (e, q', vs') = rest in (e, q', v ∷ vs'))
    else (let (e, q', v') = close_visit q v invalid in (e, q', v' ∷ vs))

unfoldable pub close_window : Queue → ℕ → ℕ → ℤ × Queue
unfolding close_in
close_window q id invalid =
    let (e, q', vs) = close_in q q.visits id invalid in (e, record q' { visits = vs })

-- `struct spf_visit_view`
pub record View : Type 0 where
  pub id : ℕ
  pub start : ℕ
  pub end : ℕ
  pub result : Outcome
  pub slices : List (ℕ × Slice)

unfoldable pub view_of : Visit → View
view_of v = record { id = v.id; start = v.start; end = v.end; result = v.result; slices = v.slices }

-- `take` and `complete_send` with the visits of the queue
unfoldable pub take_first : Queue → List Visit → ℤ × Option View × Queue
unfolding view_of
take_first q [] = (eagain, none, q)
take_first q (v ∷ vs) =
    if v.sending
    then (ebusy, none, q)
    else if is_admitted v.result
    then (eagain, none, q)
    else (ok, some (view_of v), record q { visits = record v { sending = true } ∷ vs })

unfoldable pub take : Queue → ℤ × Option View × Queue
unfolding take_first
take q = take_first q q.visits

unfoldable pub complete_first : Queue → ℕ → List Visit → ℤ × Queue
unfolding discard
complete_first q id [] = (einval, q)
complete_first q id (v ∷ vs) =
    if not v.sending || not (v.id == id)
    then (einval, q)
    else (ok, record (discard q v v.result).0 { visits = vs })

unfoldable pub complete_send : Queue → ℕ → ℤ × Queue
unfolding complete_first
complete_send q id = complete_first q id q.visits

-- the first loop of `expire`
unfoldable pub clocks_ahead : List Visit → ℕ → Bool
clocks_ahead [] now = false
clocks_ahead (v ∷ vs) now = ltb now v.reserved_at || clocks_ahead vs now

-- its second, first for the visits and then for the status
unfoldable pub expire_visit : ℕ → Queue → Visit → Queue × Visit
unfolding terminate
expire_visit now q v =
    if leb (now - v.reserved_at) q.config.maximum_age_ticks
    then (q, v)
    else if v.sending
    then (q, v)
    else if not (v.bytes == 0)
    then terminate q v skip_age
    else (q, v)

unfoldable pub any_overdue : ℕ → ℕ → List Visit → Bool
any_overdue limit now [] = false
any_overdue limit now (v ∷ vs) =
    (ltb limit (now - v.reserved_at) && v.sending) || any_overdue limit now vs

unfoldable pub expire : Queue → ℕ → ℤ × Queue
unfolding clocks_ahead expire_visit any_overdue over_visits
expire q now = if clocks_ahead q.visits now then (erange, q) else (
  (if any_overdue q.config.maximum_age_ticks now q.visits then etimedout else ok),
  over_visits (expire_visit now) q,
)

unfoldable pub cancel_visit : Queue → Visit → Queue × Visit
unfolding terminate
cancel_visit q v =
    if v.sending
    then (q, v)
    else if not q.config.preserve_partial || is_admitted v.result
    then terminate q v cancelled
    else (q, v)

unfoldable pub any_sending : List Visit → Bool
any_sending [] = false
any_sending (v ∷ vs) = v.sending || any_sending vs

unfoldable pub cancel : Queue → ℤ × Queue
unfolding cancel_visit any_sending over_visits
cancel q = (
  (if any_sending q.visits then ebusy else ok),
  over_visits cancel_visit (record q { cancelled = true }),
)

unfoldable pub capture_complete : List Visit → Bool
capture_complete [] = true
capture_complete (v ∷ vs) = not (is_admitted v.result) && capture_complete vs

-- A queue is freed only if this is 0.
unfoldable pub destroy : Queue → ℤ
destroy q = if not (length q.visits == 0) || not (q.leased_blocks == 0) then ebusy else ok
