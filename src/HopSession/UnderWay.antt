-- ===== src/HopSession/UnderWay.antt =====
-- A session of iiod/spf-hop-session.c after any calls: it has ended, or its visits lie one dwell behind the other.
use libiio.Prelude.{ℕ, ◌≤◌, ◌<◌, ◌≡◌, ◌⊎◌, inl, inr, refl, List, [], ◌∷◌, Option, ok, word64}
use libiio.HopProtocol.{Request, Sidecar}
use libiio.HopProtocol.RequestWire.{validate_request}
use libiio.HopSession.{Session, DeviceOps}
use libiio.HopSession.Ops.{fresh}
use libiio.HopSession.Inv.{IsValid, DeviceContract}
use libiio.HopSession.Live.{fresh-IsValid}
use libiio.HopSession.Run.{Call, step, run, step-IsValid}
use libiio.HopSession.Once.{ended-step}
use libiio.HopSession.Frame.{step_keeps}
use libiio.HopSession.Plan.{IsAligned}
use libiio.HopSession.Aligned.{Carries}
use libiio.HopSession.Whole.{step-Carries}
use libiio.HopSession.Reaching.{IsReaching, step-IsGoing}

-- the request is kept, and until the end the visits lie one dwell behind the other
pub record IsUnderWay (r : Request) (s : Session) : Type 0 where
  pub valid : IsValid s
  pub request : s.request ≡ r
  pub going : (3 ≤ s.status.state) ⊎ (IsAligned s × IsReaching s)

both :
    (s : Session)
    → (3 ≤ s.status.state) ⊎ IsAligned s
    → (3 ≤ s.status.state) ⊎ IsReaching s
    → (3 ≤ s.status.state) ⊎ (IsAligned s × IsReaching s)
both s (inl late) b = inl late
both s (inr a) (inl late) = inl late
both s (inr a) (inr reach) = inr (a, reach)

carried_on :
    (s s₂ : Session) (ret : ℕ) (sidecar : Option Sidecar)
    → Carries s (ret, sidecar, s₂)
    → (3 ≤ s₂.status.state) ⊎ IsAligned s₂
unfolding Carries
carried_on s s₂ ret sidecar (plan, inl late) = inl late
carried_on s s₂ ret sidecar (plan, inr (_, a)) = inr a

pub fresh-IsUnderWay : (r : Request) → validate_request r ≡ ok → IsUnderWay r (fresh r)
unfolding fresh
fresh-IsUnderWay r request_ok = record {
  valid = fresh-IsValid r request_ok;
  request = refl;
  going = inr (
    record {
      numbered = refl;
      begun = λ h. absurd (cc h);
      unbegun = λ _. refl;
      turn = λ h. absurd (cc h);
    },
    inl refl,
  );
}

module _ {D : Type 0} (ops : DeviceOps D) where
  step-IsUnderWay :
      (call : Call) (r : Request) (d : D) (s : Session)
      → DeviceContract ops
      → r.dwell_count < word64
      → IsUnderWay r s
      → IsUnderWay r (step ops call d s).0.2
  step-IsUnderWay call r d s c small u = record {
    valid = step-IsValid ops c call d u.valid;
    request =
        step_keeps ops (λ q _ _. q ≡ r) (λ _ _ _ q. q) (λ _ _ _ q. q) (λ _ _ _ q. q) call d s
          u.request;
    going = elim u.going [
      | inl late ↦ inl (let (same, _, _) = ended-step ops call d s late in rw same late)
      | inr (a, reach) ↦
          (let small' : s.request.dwell_count < word64 = rw u.request small in
            both (step ops call d s).0.2
              (carried_on s _ _ _ (step-Carries ops call d s u.valid (inr (refl, a)) small'))
              (step-IsGoing ops call d s u.valid a small' reach))
    ];
  }

  pub run-IsUnderWay :
      (calls : List Call) (r : Request) (d : D) (s : Session)
      → DeviceContract ops
      → r.dwell_count < word64
      → IsUnderWay r s
      → IsUnderWay r (run ops calls d s).0
  unfolding run
  run-IsUnderWay [] r d s c small u = u
  run-IsUnderWay (call ∷ calls) r d s c small u =
      let ((ret, sidecar, s₂), d₂) = step ops call d s in
      run-IsUnderWay calls r d₂ s₂ c small (step-IsUnderWay call r d s c small u)
