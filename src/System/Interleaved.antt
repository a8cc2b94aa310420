-- ===== src/System/Interleaved.antt =====
-- A call of `Reconcile` while the calls of other resources go on: before each of its client calls the
-- others may make any number of theirs.
use chia_opera.Base.{ℕ, suc, ◌≡◌, ◌≢◌, refl, ap, value, none, All, All-listed, Memᴰ, subst}
use chia_opera.Kube.{Kube, Object}
use chia_opera.Exec.{returned}
use chia_opera.Client.{
  Client, NamespacedName, ResourceKind, Resource, found, chia_node, chia_farmer, chia_wallet,
  chia_harvester, chia_ca,
}
use chia_opera.Plan.Holds.{IsLawful, IsHealthy, AllHold}
use chia_opera.Plan.Reached.{AllIn}
use chia_opera.Node
use chia_opera.Farmer
use chia_opera.Wallet
use chia_opera.Harvester
use chia_opera.Ca
use chia_opera.System.{reconcile_of, plan_of}
use chia_opera.System.Apart.{id_of, IsPlanned}
use chia_opera.System.Acts.{Steps, KeepsByReading}
use chia_opera.System.Stays.{OthersAct, kept_by_others}
use chia_opera.System.Components.{ready_of, IsAssembledFrom, component_ready, component_converges}

-- The client, with what the others do before each call. A schedule says it, by the number of the call
-- and the state of the cluster.
module _ {K : Kube} (C : Client K) (schedule : ℕ → C.State → C.State) where
  abbrev pub moved : {A : Type 0} → (C.State → A × C.State) → C.State × ℕ → A × (C.State × ℕ)
  moved f (s, n) = let (r, t) = f (schedule n s) in (r, (t, suc n))

  abbrev pub interleaved : Client K
  interleaved = record {
    State = C.State × ℕ;
    Error = C.Error;
    Result = C.Result;
    zero_result = C.zero_result;
    is_not_found = C.is_not_found;
    ignore_not_found = C.ignore_not_found;
    message = C.message;
    show_name = C.show_name;
    get = λ k req. moved (C.get k req);
    get_secret = λ secret. moved (C.get_secret secret);
    reconcile_resource = λ o. moved (C.reconcile_resource o);
    update_status = λ k cr. moved (C.update_status k cr);
    sleep = λ d s. (C.sleep d (schedule s.1 s.0), suc s.1);
  }

  -- The others have no say in what is desired.
  same_plan :
      (req : NamespacedName) (k : ResourceKind) (cr : Resource K k)
      → plan_of interleaved k req cr ≡ plan_of C k req cr
  unfolding plan_of Node.Reconcile.plan Farmer.Reconcile.plan Wallet.Reconcile.plan
      Harvester.Reconcile.plan Ca.Generate.plan Ca.Generate.job_plan
  same_plan req chia_node cr = refl
  same_plan req chia_farmer cr = refl
  same_plan req chia_wallet cr = refl
  same_plan req chia_harvester cr = refl
  same_plan req chia_ca cr = refl

module _ {K : Kube} {C : Client K} (L : IsLawful C) (reading : KeepsByReading L)
    (schedule : ℕ → C.State → C.State) (k : ResourceKind) (cr : Resource K k) (req : NamespacedName)
    (by_others : (n : ℕ) (s : C.State) → Steps (OthersAct C (id_of K k cr)) s (schedule n s)) where
  -- The planned objects of the one resource.
  abbrev pub HoldsMine : Object K → C.State × ℕ → Type 0
  HoldsMine o s = IsPlanned o (plan_of C k req cr) → L.Holds o s.0

  pub moved-eq :
      {A : Type 0} (f : C.State → A × C.State) (s t : C.State × ℕ) (r : A)
      → moved C schedule f s ≡ (r, t)
      → f (schedule s.1 s.0) ≡ (r, t.0)
  moved-eq f s t r e = ap (λ (r : _ × (C.State × ℕ)). (r.0, r.1.0)) e

  unfoldable pub mine-IsLawful : IsLawful (interleaved C schedule)
  mine-IsLawful = record {
    Holds = HoldsMine;
    Stores = λ l d s. L.Stores l d s.0;
    applied =
        λ o s t res e planned. L.applied o _ _ res (moved-eq (C.reconcile_resource o) s t _ e);
    kept = λ o p s t r ne e h planned.
        L.kept o p _ _ r ne (moved-eq (C.reconcile_resource p) s t r e)
          (kept_by_others L reading k cr req o planned (by_others s.1 s.0) (h planned));
    kept_by_status = λ o l d s t r e h planned.
        L.kept_by_status o l d _ _ r (moved-eq (C.update_status l d) s t r e)
          (kept_by_others L reading k cr req o planned (by_others s.1 s.0) (h planned));
    stored = λ l d s t e. L.stored l d _ _ (moved-eq (C.update_status l d) s t none e);
  }

  pub healthy : IsHealthy C → IsHealthy (interleaved C schedule)
  healthy H = record {
    reconciles = λ o s. H.reconciles o (schedule s.1 s.0);
    updates = λ l d s. H.updates l d (schedule s.1 s.0);
  }

  mine-AllIn :
      (t : C.State × ℕ)
      → AllHold mine-IsLawful k (ready_of K k cr) (plan_of (interleaved C schedule) k req cr) t
      → AllIn L (plan_of C k req cr) t.0
  unfolding mine-IsLawful
  mine-AllIn t h =
      All-listed (λ step. (o : Object K) × (step.1 ≡ value o) × HoldsMine o t) (plan_of C k req cr)
        (subst (All (λ step. (o : Object K) × (step.1 ≡ value o) × HoldsMine o t))
          (same_plan C schedule req k cr) h)
        (λ step listed held.
          let (o, e, holds) = held in
          (o, e, holds (step.0, subst (λ v. Memᴰ (step.0, v) (plan_of C k req cr)) e listed)))

  -- While before each of its client calls the calls of `Reconcile` for other resources may make any
  -- number of theirs, a call for a fetched component that returns no error still leaves every object
  -- of its plan in the cluster, and the resource stored with the ready status. The client is lawful,
  -- and what only reads or waits keeps the objects.
  pub interleaved_ready :
      k ≢ chia_ca
      → (s t : C.State × ℕ) (res : C.Result) → (interleaved C schedule).get k req s ≡ (found cr, t)
      → (reconcile_of (interleaved C schedule) k req s).0 ≡ returned (res, none)
      → AllIn L (plan_of C k req cr) (reconcile_of (interleaved C schedule) k req s).1.0
        × L.Stores k (ready_of K k cr) (reconcile_of (interleaved C schedule) k req s).1.0
  unfolding mine-IsLawful
  interleaved_ready ne s t res e ok =
      let (holds, stores) =
        component_ready (interleaved C schedule) req mine-IsLawful k ne cr s t res e ok in
      (mine-AllIn (reconcile_of (interleaved C schedule) k req s).1 holds, stores)

  -- Where moreover no client call fails and the storage of the resource is one that its workload is
  -- assembled from, the interleaved call does return no error, and so leaves all that.
  pub interleaved_converges :
      IsHealthy C
      → k ≢ chia_ca
      → (s t : C.State × ℕ) → (interleaved C schedule).get k req s ≡ (found cr, t)
      → IsAssembledFrom K k cr
      → ((reconcile_of (interleaved C schedule) k req s).0 ≡ returned (C.zero_result, none))
        × AllIn L (plan_of C k req cr) (reconcile_of (interleaved C schedule) k req s).1.0
        × L.Stores k (ready_of K k cr) (reconcile_of (interleaved C schedule) k req s).1.0
  unfolding mine-IsLawful healthy
  interleaved_converges H ne s t e h =
      let (returns, holds, stores) =
        component_converges (interleaved C schedule) req mine-IsLawful (healthy H) k ne cr s t e
          h in
      (returns, mine-AllIn (reconcile_of (interleaved C schedule) k req s).1 holds, stores)
