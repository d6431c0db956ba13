-- ===== src/HopSession/Complete.antt =====
-- How many events a session of iiod/spf-hop-session.c hands out.
use libiio.Prelude.{ℕ, ◌+◌, ◌≤◌, ◌<◌, ◌≡◌, arith, List, [], ◌∷◌, length, Option, none, some, word64}
use libiio.HopProtocol.{Request, Event}
use libiio.HopProtocol.Wire.{Wire}
use libiio.HopSession.{Session, DeviceOps}
use libiio.HopSession.Ops.{init}
use libiio.HopSession.Inv.{DeviceContract}
use libiio.HopSession.Run.{Call}
use libiio.HopSession.Plan.{FollowsPlan}
use libiio.HopSession.Whole.{trace, trace-FollowsPlan}

plan_length :
    (es : List Event) (r : Request) (prev : Option Event) (i : ℕ)
    → FollowsPlan r (prev, i) es
    → i ≤ r.dwell_count
    → i + length es ≤ r.dwell_count
plan_length [] r prev i plan h = omega arith
plan_length (e ∷ es) r prev i ((_, _, _, bound, _, _), plan) h =
    let rest = plan_length es r (some e) (i + 1) plan (omega (arith, bound)) in omega arith

module _ {D : Type 0} (ops : DeviceOps D) where
  -- A session hands out no more events than its request has dwells.
  pub length-trace :
      (wire : Wire) (r : Request) (s : Session)
      → init wire r ≡ (0, some s)
      → r.dwell_count < word64
      → DeviceContract ops
      → (calls : List Call) (d : D) → length (trace ops calls d s) ≤ r.dwell_count
  length-trace wire r s e small c calls d =
      let bounded =
        plan_length (trace ops calls d s) r none 0
          (trace-FollowsPlan ops wire r s e small c calls d) (omega arith) in
      omega arith
