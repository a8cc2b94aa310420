-- ===== src/Plan/Reached.antt =====
-- The state that a run over a plan reaches at the end of the plan, where no call fails.
use chia_opera.Base.{◌≡◌, refl, value, All}
use chia_opera.Kube.{Kube, Object}
use chia_opera.Exec.{Exec, Outcome, run}
use chia_opera.Client.{Client, Return}
use chia_opera.Plan.{Plan, Runs, ends, applies, fails, aborts}
use chia_opera.Plan.Keys.{IsApartFrom, HasDistinctKeys}
use chia_opera.Plan.Holds.{IsLawful, IsHealthy, IsAssembled, no_error}

module _ {K : Kube} {C : Client K} (L : IsLawful C) where
  -- Every object of the plan is in the cluster.
  abbrev pub AllIn : Plan K → C.State → Type 0
  AllIn plan u = All (λ step. (o : Object K) × (step.1 ≡ value o) × L.Holds o u) plan

  module _ (H : IsHealthy C) {end : Exec C.State (Return C) (Return C)} where
    reached :
        {plan : Plan K} {s t : C.State} {out : Outcome (Return C)}
        → Runs C end plan s out t
        → IsAssembled plan
        → HasDistinctKeys plan
        → (u : C.State) × (run end u ≡ (out, t))
          × AllIn plan u
          × ((o : Object K) → IsApartFrom o plan → L.Holds o s → L.Holds o u)
    reached (ends {s = s} e) a d = (s, e, tt, λ o apart h. h)
    reached (applies {object = p} e r) a d =
        let (u, ended, holds, keeps) = reached r a.1 d.1 in
        (
          u,
          ended,
          ((p, refl, keeps p (d.0 p refl) (L.applied p _ _ _ e)), holds),
          λ o apart h. keeps o apart.1 (L.kept o p _ _ _ (apart.0 p refl) e h),
        )
    reached (fails {object = p} {s = s} e _) a d = absurd (no_error H p s _ _ _ e)
    reached (aborts {p = p} out) a d = cc (a.0.1)

    -- The objects are all there, and what is at the end of the method gives the outcome.
    pub Runs-AllIn :
        {plan : Plan K} {s t : C.State} {out : Outcome (Return C)}
        → Runs C end plan s out t
        → IsAssembled plan
        → HasDistinctKeys plan
        → (u : C.State) × AllIn plan u × (run end u ≡ (out, t))
    Runs-AllIn r a d = let (u, ended, holds, _) = reached r a d in (u, holds, ended)
