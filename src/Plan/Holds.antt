-- ===== src/Plan/Holds.antt =====
-- What a run over a plan achieves on a cluster that does what its interface documents, while nobody
-- else acts on the planned objects.
use chia_opera.Base.{◌≡◌, refl, ◌≢◌, Option, none, some, value, All, sym, ap, ◌∙◌}
use mathlib.Core.Option.{none-ne-some}
use chia_opera.Kube.{Kube, Object}
use chia_opera.Exec.{Outcome, returned, outcome, run}
use chia_opera.Client.{Client, ResourceKind, Resource, Return, after_update, update_ready}
use chia_opera.Plan.Keys.{key, IsApartFrom, HasDistinctKeys}
use chia_opera.Plan.{Plan, Runs, ends, applies, fails, aborts}

-- `Holds o s`: the cluster has the object as it is desired. `Stores k cr s`: it has the resource with
-- its status. A call without an error applies its object: no object is being deleted meanwhile, where
-- the library may wait and say so by a result alone, which the methods drop.
pub record IsLawful {K : Kube} (C : Client K) : Type 1 where
  pub Holds : Object K → C.State → Type 0
  pub Stores : (k : ResourceKind) → Resource K k → C.State → Type 0
  pub applied :
      (o : Object K) (s t : C.State) (res : Option C.Result)
      → C.reconcile_resource o s ≡ ((res, none), t)
      → Holds o t
  pub kept :
      (o p : Object K) (s t : C.State) (r : Option C.Result × Option C.Error)
      → key o ≢ key p
      → C.reconcile_resource p s ≡ (r, t)
      → Holds o s
      → Holds o t
  pub kept_by_status :
      (o : Object K) (k : ResourceKind) (cr : Resource K k) (s t : C.State) (r : Option C.Error)
      → C.update_status k cr s ≡ (r, t)
      → Holds o s
      → Holds o t
  pub stored :
      (k : ResourceKind) (cr : Resource K k) (s t : C.State)
      → C.update_status k cr s ≡ (none, t)
      → Stores k cr t

-- The end of a component's method, taken apart.
module _ {K : Kube} (C : Client K) (k : ResourceKind) (cr : Resource K k) where
  pub update-state :
      (s t : C.State) (out : Outcome (Return C))
      → run (update_ready C k cr) s ≡ (out, t)
      → C.update_status k cr s ≡ ((C.update_status k cr s).0, t)
  unfolding update_ready
  update-state s t out e =
      ap (λ u. ((C.update_status k cr s).0, u)) (ap (λ (r : Outcome (Return C) × C.State). r.1) e)

  no_error_of :
      (r : Option C.Error) (res : C.Result)
      → outcome (after_update C r) ≡ returned (res, none)
      → r ≡ none
  no_error_of none res e = refl
  no_error_of (some err) res e = cc

  updated :
      (s t : C.State) (out : Outcome (Return C)) (res : C.Result)
      → run (update_ready C k cr) s ≡ (out, t)
      → out ≡ returned (res, none)
      → C.update_status k cr s ≡ (none, t)
  unfolding update_ready
  updated s t out res e ok =
      let r = (C.update_status k cr s).0 in
      update-state s t out e
      ∙ ap (λ o. (o, t)) (no_error_of r res (ap (λ (r : Outcome (Return C) × C.State). r.0) e ∙ ok))

  ended-returned :
      (s t : C.State) (out : Outcome (Return C))
      → (C.update_status k cr s).0 ≡ none
      → run (update_ready C k cr) s ≡ (out, t)
      → out ≡ returned (C.zero_result, none)
  unfolding update_ready
  ended-returned s t out h e =
      sym (ap (λ (r : Outcome (Return C) × C.State). r.0) e)
      ∙ ap (λ r. outcome (after_update C r)) h

module _ {K : Kube} {C : Client K} (L : IsLawful C) (k : ResourceKind) (cr : Resource K k) where
  Runs-Holds :
      (o : Object K) {plan : Plan K} {s t : C.State} {out : Outcome (Return C)}
      → Runs C (update_ready C k cr) plan s out t
      → IsApartFrom o plan
      → L.Holds o s
      → L.Holds o t
  Runs-Holds o (ends {s = s} e) a h = L.kept_by_status o k cr s _ _ (update-state C k cr s _ _ e) h
  Runs-Holds o (applies {object = p} e r) a h =
      Runs-Holds o r a.1 (L.kept o p _ _ _ (a.0 p refl) e h)
  Runs-Holds o (fails {object = p} e _) a h = L.kept o p _ _ _ (a.0 p refl) e h
  Runs-Holds o (aborts _) a h = h

  abbrev pub AllHold : Plan K → C.State → Type 0
  AllHold plan t = All (λ step. (o : Object K) × (step.1 ≡ value o) × L.Holds o t) plan

  -- A run without an error leaves every planned object in the cluster, and then its status.
  pub Runs-AllHold :
      {plan : Plan K} {s t : C.State} {out : Outcome (Return C)} {res : C.Result}
      → Runs C (update_ready C k cr) plan s out t
      → out ≡ returned (res, none)
      → HasDistinctKeys plan
      → AllHold plan t × L.Stores k cr t
  Runs-AllHold (ends {s = s} {t = t} e) ok d = (tt, L.stored k cr s t (updated C k cr s t _ _ e ok))
  Runs-AllHold (applies {object = o} e r) ok d =
      let (holds, stores) = Runs-AllHold r ok d.1 in
      (((o, refl, Runs-Holds o r (d.0 o refl) (L.applied o _ _ _ e)), holds), stores)
  Runs-AllHold (fails e out) ok d = cc
  Runs-AllHold (aborts out) ok d = cc

-- No call of the client fails.
pub record IsHealthy {K : Kube} (C : Client K) : Type 0 where
  pub reconciles : (o : Object K) (s : C.State) → (C.reconcile_resource o s).0.1 ≡ none
  pub updates :
      (k : ResourceKind) (cr : Resource K k) (s : C.State) → (C.update_status k cr s).0 ≡ none

-- Every object of the plan is assembled without a panic.
abbrev pub IsAssembled : {K : Kube} → Plan K → Type 0
IsAssembled {K} = All (λ step. (o : Object K) × (step.1 ≡ value o))

module _ {K : Kube} {C : Client K} (H : IsHealthy C) where
  pub no_error :
      (o : Object K) (s t : C.State) (res : Option C.Result) (e : C.Error)
      → C.reconcile_resource o s ≡ ((res, some e), t)
      → ⊥
  no_error o s t res e h =
      none-ne-some e (
        sym (H.reconciles o s) ∙ ap (λ (r : (Option C.Result × Option C.Error) × C.State). r.0.1) h)

module _ {K : Kube} {C : Client K} (H : IsHealthy C) (k : ResourceKind) (cr : Resource K k) where
  -- Then a run over the plan returns the zero result and no error.
  pub Runs-returned :
      {plan : Plan K} {s t : C.State} {out : Outcome (Return C)}
      → Runs C (update_ready C k cr) plan s out t
      → IsAssembled plan
      → out ≡ returned (C.zero_result, none)
  Runs-returned (ends {s = s} {t = t} {out = out} e) a =
      ended-returned C k cr s t out (H.updates k cr s) e
  Runs-returned (applies e r) a = Runs-returned r a.1
  Runs-returned (fails {object = o} {s = s} e out) a = absurd (no_error H o s _ _ _ e)
  Runs-returned (aborts out) a = cc (a.0.1)
