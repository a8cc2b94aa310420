-- ===== src/Plan/Settled.antt =====
-- A run over a plan of which every object is in the cluster already.
use chia_opera.Base.{◌≡◌, Option, [], ◌∷◌, ap, sym, subst, none, value, ◌∙◌}
use chia_opera.Kube.{Kube, Object}
use chia_opera.Exec.{Exec, Outcome, returned, run}
use chia_opera.Client.{Client, ResourceKind, Resource, Return, update_ready}
use chia_opera.Plan.Keys.{value_injective}
use chia_opera.Plan.{Plan, Runs, ends, applies, fails, aborts}
use chia_opera.Plan.Holds.{IsLawful, IsHealthy, IsAssembled, no_error, Runs-returned, update-state}
use chia_opera.Plan.Reached.{AllIn}

module _ {K : Kube} {C : Client K} (L : IsLawful C) where
  -- `ReconcileResource` compares the object in the cluster with the desired one, and writes only where
  -- they differ.
  abbrev pub WritesOnlyChanges : Type 0
  WritesOnlyChanges = (o : Object K) (s : C.State) → L.Holds o s → (C.reconcile_resource o s).1 ≡ s

  AllIn-IsAssembled : (plan : Plan K) (s : C.State) → AllIn L plan s → IsAssembled plan
  AllIn-IsAssembled [] s h = tt
  AllIn-IsAssembled (step ∷ plan) s ((o, e, _), h) = ((o, e), AllIn-IsAssembled plan s h)

  module _ (H : IsHealthy C) (idle : WritesOnlyChanges) where
    same_state :
        (o p : Object K) (s t : C.State) (r : Option C.Result × Option C.Error)
        → value o ≡ value p
        → L.Holds o s
        → C.reconcile_resource p s ≡ (r, t)
        → t ≡ s
    same_state o p s t r e h call =
        sym (ap (λ r. r.1) call) ∙ idle p s (subst (λ q. L.Holds q s) (value_injective o p e) h)

    -- The objects leave the state as it is, and what is at the end of the method gives the outcome.
    pub Runs-ended :
        {end : Exec C.State (Return C) (Return C)} {plan : Plan K} {s t : C.State}
        {out : Outcome (Return C)}
        → Runs C end plan s out t
        → AllIn L plan s
        → run end s ≡ (out, t)
    Runs-ended (ends e) h = e
    Runs-ended {end} (applies {object = p} {rest = rest} {s = s} {t = t} {u = w} {out = out} e r)
          ((o, same, held), h) =
        let stays = same_state o p s t _ (sym same) held e in
        subst (λ u. run end u ≡ (out, w)) stays (Runs-ended r (subst (AllIn L rest) (sym stays) h))
    Runs-ended (fails {object = p} {s = s} e _) h = absurd (no_error H p s _ _ _ e)
    Runs-ended (aborts out) ((o, same, _), _) = cc

    -- All that the run writes is the status.
    pub Runs-settled :
        (k : ResourceKind) (cr : Resource K k) {plan : Plan K} {s t : C.State}
        {out : Outcome (Return C)}
        → Runs C (update_ready C k cr) plan s out t
        → AllIn L plan s
        → (out ≡ returned (C.zero_result, none)) × (t ≡ (C.update_status k cr s).1)
    Runs-settled k cr {plan} {s} {t} {out} r h = (
      Runs-returned H k cr r (AllIn-IsAssembled plan s h),
      sym (ap (λ r. r.1) (update-state C k cr s t out (Runs-ended r h))),
    )
