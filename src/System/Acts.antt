-- ===== src/System/Acts.antt =====
-- What a call of `Reconcile` does to the cluster, client call by client call, so that the calls of
-- different controllers may be interleaved.
use chia_opera.Base.{ℕ, ◌≡◌, Option}
use chia_opera.Kube.{Kube, Object}
use chia_opera.Client.{Client, NamespacedName, ResourceKind, Resource, Fetched, found}
use chia_opera.Plan.Holds.{IsLawful}
use chia_opera.System.{plan_of}
use chia_opera.System.Apart.{id_of, requested, IsPlanned}

-- One step after the other.
module _ {S : Type 0} (R : S → S → Type 0) where
  pub data Steps : S → S → Type 0 where
    done : {s : S} → Steps s s
    step : {s t u : S} → R s t → Steps t u → Steps s u

module _ {S : Type 0} {R : S → S → Type 0} where
  pub Steps-trans : {s t u : S} → Steps R s t → Steps R t u → Steps R s u
  Steps-trans done q = q
  Steps-trans (step r p) q = step r (Steps-trans p q)

module _ {K : Kube} (C : Client K) (k : ResourceKind) (req : NamespacedName) where
  -- One client call of a call of the kind's reconciler for a request. It applies objects only of a
  -- resource with the kind, namespace and name of the request.
  pub data Acts : C.State → C.State → Type 0 where
    gets : {s t : C.State} {r : Fetched C.Error (Resource K k)} → C.get k req s ≡ (r, t) → Acts s t
    queries :
        {s t : C.State} (secret : NamespacedName) {r : Option C.Error}
        → C.get_secret secret s ≡ (r, t)
        → Acts s t
    applies :
        {s t : C.State} (cr : Resource K k) (o : Object K) {r : Option C.Result × Option C.Error}
        → id_of K k cr ≡ requested k req
        → IsPlanned o (plan_of C k req cr)
        → C.reconcile_resource o s ≡ (r, t)
        → Acts s t
    updates :
        {s t : C.State} (cr : Resource K k) {r : Option C.Error}
        → C.update_status k cr s ≡ (r, t)
        → Acts s t
    sleeps : {s t : C.State} (d : ℕ) → C.sleep d s ≡ t → Acts s t

-- `Get` gives the resource that it is asked for.
abbrev pub IsAddressed : {K : Kube} → Client K → Type 0
IsAddressed {K} C =
    (k : ResourceKind) (req : NamespacedName) (cr : Resource K k) (s t : C.State)
    → C.get k req s ≡ (found cr, t)
    → id_of K k cr ≡ requested k req

-- What only reads or waits leaves the objects as they are.
pub record KeepsByReading {K : Kube} {C : Client K} (L : IsLawful C) : Type 0 where
  pub kept_by_get :
      (o : Object K) (k : ResourceKind) (req : NamespacedName) (s t : C.State)
      (r : Fetched C.Error (Resource K k))
      → C.get k req s ≡ (r, t)
      → L.Holds o s
      → L.Holds o t
  pub kept_by_get_secret :
      (o : Object K) (secret : NamespacedName) (s t : C.State) (r : Option C.Error)
      → C.get_secret secret s ≡ (r, t)
      → L.Holds o s
      → L.Holds o t
  pub kept_by_sleep :
      (o : Object K) (d : ℕ) (s t : C.State) → C.sleep d s ≡ t → L.Holds o s → L.Holds o t
