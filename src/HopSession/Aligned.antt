-- ===== src/HopSession/Aligned.antt =====
-- What the steps inside the calls of iiod/spf-hop-session.c do to the place of a session in its plan.
use libiio.Prelude.{
  ℕ, ◌+◌, ◌≤◌, ◌<◌, ◌≡◌, ◌⊎◌, inl, inr, refl, sym, subst, false, ◌==◌, List, [], ◌∷◌, ◌++◌, Option,
  none, some, word64,
}
use libiio.HopProtocol.{Request, Event, Sidecar}
use libiio.HopSession.{Session, Drained}
use libiio.HopSession.Events.{take_events}
use libiio.HopSession.Ops.{entering, emitted, with_dropped, with_block}
use libiio.HopSession.Plan.{Position, position, after, FollowsPlan, IsAligned, take_events_plan}

abbrev pub events_of : Option Sidecar → List Event
events_of none = []
events_of (some sc) = sc.events

-- The session has ended, or it stands at a position of the plan.
abbrev pub Stands : Position → Session → Type 0
Stands p s = (3 ≤ s.status.state) ⊎ (position s ≡ p) × IsAligned s

entering-IsAligned : (s : Session) (state : ℕ) → IsAligned s → IsAligned (entering s state)
unfolding entering
entering-IsAligned s state a = record {
  numbered = a.numbered;
  begun = a.begun;
  unbegun = a.unbegun;
  turn = a.turn;
}

block-IsAligned : (s : Session) (n end : ℕ) → IsAligned s → IsAligned (with_block s n end)
unfolding with_block
block-IsAligned s n end a = record {
  numbered = a.numbered;
  begun = a.begun;
  unbegun = a.unbegun;
  turn = a.turn;
}

pub dropped-IsAligned : (s : Session) (n : ℕ) → IsAligned s → IsAligned (with_dropped s n)
unfolding with_dropped
dropped-IsAligned s n a = record {
  numbered = a.numbered;
  begun = a.begun;
  unbegun = a.unbegun;
  turn = a.turn;
}

pub emitted-IsAligned : (s : Session) (n : ℕ) → IsAligned s → IsAligned (emitted s n)
unfolding emitted
emitted-IsAligned s n a = record {
  numbered = a.numbered;
  begun = a.begun;
  unbegun = a.unbegun;
  turn = a.turn;
}

pub emitted-Stands : (p : Position) (s : Session) (n : ℕ) → Stands p s → Stands p (emitted s n)
unfolding emitted
emitted-Stands p s n (inl late) = inl late
emitted-Stands p s n (inr (at, a)) = inr (at, emitted-IsAligned s n a)

pub block-Stands :
    (p : Position) (s s₂ : Session) (n end ret : ℕ)
    → (3 ≤ s₂.status.state) ⊎ (ret ≡ 0) × (s₂ ≡ with_block s n end)
    → position s ≡ p
    → IsAligned s
    → Stands p s₂
unfolding with_block
block-Stands p s s₂ n end ret (inl late) at a = inl late
block-Stands p s s₂ n end ret (inr (_, same)) at a =
    subst (Stands p) (sym same) (inr (at, block-IsAligned s n end a))

pub broken_late :
    (s₂ t : Session) (ret : ℕ)
    → (3 ≤ s₂.status.state) ⊎ (ret ≡ 0) × (s₂ ≡ t)
    → (ret == 0) ≡ false
    → 3 ≤ s₂.status.state
broken_late s₂ t ret (inl late) bad = late
broken_late s₂ t ret (inr (z, _)) bad = absurd (cc (rw z at bad))

-- What a call leaves: its events carry on the plan, and it ends the session or stands behind them.
unfoldable pub Carries : Session → ℕ × Option Sidecar × Session → Type 0
Carries s (ret, sidecar, s₂) =
    FollowsPlan s.request (position s) (events_of sidecar)
    × Stands (after (position s) (events_of sidecar)) s₂

pub silent : (s s₂ : Session) (ret : ℕ) → Stands (position s) s₂ → Carries s (ret, none, s₂)
unfolding Carries
silent s s₂ ret at = (tt, at)

pub spoken :
    (s s₂ : Session) (ret : ℕ) (sc : Sidecar)
    → FollowsPlan s.request (position s) sc.events
    → Stands (after (position s) sc.events) s₂
    → Carries s (ret, some sc, s₂)
unfolding Carries
spoken s s₂ ret sc plan at = (plan, at)

-- what completing leaves
unfoldable pub Stops : Session → ℕ × Session → Type 0
Stops s (ret, s₂) = (3 ≤ s₂.status.state) ⊎ (ret ≡ 0) × (s₂ ≡ s)

pub still : (s : Session) → Stops s (0, s)
unfolding Stops
still s = inr (refl, refl)

pub stopped : (s s₂ : Session) (ret : ℕ) → 3 ≤ s₂.status.state → Stops s (ret, s₂)
unfolding Stops
stopped s s₂ ret late = inl late

pub done_stands :
    (s t : Session) (ret : ℕ) → Stops t (ret, s) → (3 ≤ s.status.state) ⊎ (ret ≡ 0) × (s ≡ t)
unfolding Stops
done_stands s t ret e = e

pub entering-Stands :
    (s : Session) (state : ℕ) → IsAligned s → Stands (position s) (entering s state)
unfolding entering
entering-Stands s state a = inr (refl, entering-IsAligned s state a)

pub dropped_plan :
    (drained : Drained) (first : ℕ) (s : Session)
    → s.request.dwell_count < word64
    → IsAligned s
    → let (_, s₂, es) = take_events drained.events first (with_dropped s drained.dropped) in
      FollowsPlan s.request (position s) es × (position s₂ ≡ after (position s) es) × IsAligned s₂
unfolding with_dropped
dropped_plan drained first s small a =
    take_events_plan drained.events first (with_dropped s drained.dropped) small
      (dropped-IsAligned s drained.dropped a)

pub plan_append :
    (xs ys : List Event) (r : Request) (p : Position)
    → FollowsPlan r p xs
    → FollowsPlan r (after p xs) ys
    → FollowsPlan r p (xs ++ ys)
plan_append [] ys r p a b = b
plan_append (x ∷ xs) ys r (prev, i) (a, more) b = (a, plan_append xs ys r (some x, i + 1) more b)
