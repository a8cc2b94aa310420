-- ===== src/System/Settled.antt =====
-- A second call for the same resource.
use chia_opera.Base.{◌≡◌, ◌≢◌, none, subst}
use chia_opera.Kube.{Kube}
use chia_opera.Exec.{returned}
use chia_opera.Client.{Client, NamespacedName, ResourceKind, Resource, found, chia_ca}
use chia_opera.Plan.Holds.{IsLawful, IsHealthy}
use chia_opera.Plan.Reached.{AllIn}
use chia_opera.Plan.Settled.{WritesOnlyChanges, Runs-settled}
use chia_opera.System.{meta_of, reconcile_of, plan_of}
use chia_opera.System.Apart.{id_of}
use chia_opera.System.Acts.{Steps, KeepsByReading}
use chia_opera.System.Stays.{OthersAct, AllIn-kept, plan_of-stays}
use chia_opera.System.Status.{spec_of, plan_of-spec}
use chia_opera.System.Components.{ready_of, IsAssembledFrom, component-Follows, component_converges}

module _ {K : Kube} {C : Client K} (L : IsLawful C) (reading : KeepsByReading L) where
  module _ (H : IsHealthy C) (idle : WritesOnlyChanges L) (k : ResourceKind) (ne : k ≢ chia_ca)
      (req : NamespacedName) where
    settled :
        (d : Resource K k) (u v : C.State)
        → C.get k req u ≡ (found d, v)
        → AllIn L (plan_of C k req d) u
        → reconcile_of C k req u
          ≡ (returned (C.zero_result, none), (C.update_status k (ready_of K k d) v).1)
    settled d u v e h =
        let (out, end) =
          Runs-settled L H idle k (ready_of K k d) (component-Follows C req k ne u v (found d) e) (
            AllIn-kept L (plan_of C k req d) u v
              (λ o _ holds. reading.kept_by_get o k req u v (found d) e holds) h) in
        λ i. (out i, end i)

    -- On a lawful client whose calls do not fail, on which reading and waiting keep the objects and
    -- which changes nothing to reconcile an object that is in the cluster as desired: let a call for
    -- a fetched component, whose storage its workload is assembled from, be followed by any client
    -- calls of calls of `Reconcile` for resources of another kind, namespace or name, and then by a
    -- second call, which fetches the resource with the same meta data and spec, whatever its status.
    -- The second call returns the zero result and no error, and all that it does to the state, behind
    -- `Get`, is the update to the ready status.
    pub second_call :
        (c d : Resource K k) (s t u v : C.State)
        → C.get k req s ≡ (found c, t)
        → IsAssembledFrom K k c
        → Steps (OthersAct C (id_of K k c)) (reconcile_of C k req s).1 u
        → meta_of K k c ≡ meta_of K k d
        → spec_of K k c ≡ spec_of K k d
        → C.get k req u ≡ (found d, v)
        → reconcile_of C k req u
          ≡ (returned (C.zero_result, none), (C.update_status k (ready_of K k d) v).1)
    second_call c d s t u v first assembled others metas specs second =
        let (_, there, _) = component_converges C req L H k ne c s t first assembled in
        settled d u v second (
          subst (λ plan. AllIn L plan u) (plan_of-spec C req k c d metas specs)
            (plan_of-stays L reading k c req (reconcile_of C k req s).1 u there others))
