-- ===== src/Farmer/Owned.antt =====
-- The objects of a ChiaFarmer belong to it.
use chia_opera.Base.{
  assembled-OnValue, String, ◌<>◌, ◌≡◌, subst, List, [], ◌∷◌, StringMap, value, bind_eval-eq-value,
}
use chia_opera.Kube.{Kube, Deployment, deployment}
use chia_opera.Api.Farmer.{ChiaFarmer}
use chia_opera.Client.{Client, NamespacedName}
use chia_opera.Plan.Owned.{meta_of, IsOwned, AllOwned, component-IsOwned}
use chia_opera.Farmer.{
  object_meta, get_common_labels, assemble_base_service, assemble_chia_exporter_service,
  assemble_deployment, get_chia_volumes,
}
use chia_opera.Farmer.Reconcile.{plan}

module _ (K : Kube) (farmer : ChiaFarmer K) where
  object_meta-IsOwned :
      (suffix : String) (added : List StringMap)
      → IsOwned farmer.meta (object_meta K farmer suffix added)
  unfolding object_meta get_common_labels
  object_meta-IsOwned suffix added =
      component-IsOwned farmer.meta "chiafarmer-owner" (farmer.meta.name <> suffix)
        farmer.spec.additional_metadata.annotations added

  -- An assembled workload has the meta data of the literal.
  pub workload-meta :
      (w : Deployment K)
      → assemble_deployment K farmer ≡ value w
      → object_meta K farmer "-farmer" (farmer.spec.additional_metadata.labels ∷ []) ≡ w.meta
  unfolding assemble_deployment
  workload-meta w e =
      let (r, _, made) = bind_eval-eq-value (get_chia_volumes K farmer) _ e in cc made

  workload-IsOwned :
      (w : Deployment K) → assemble_deployment K farmer ≡ value w → IsOwned farmer.meta w.meta
  workload-IsOwned w e =
      subst (λ m. IsOwned farmer.meta m) (workload-meta w e)
        (object_meta-IsOwned "-farmer" (farmer.spec.additional_metadata.labels ∷ []))

  -- Every object of the plan lies in the namespace of the resource, has the resource as its one owner
  -- and controller, and is labelled as the operator's and with the resource's name as its instance,
  -- whatever labels the user adds.
  pub farmer-plan-AllOwned :
      (C : Client K) (req : NamespacedName) → AllOwned farmer.meta (plan C req farmer)
  unfolding plan assemble_base_service assemble_chia_exporter_service
  farmer-plan-AllOwned C req = (
    object_meta-IsOwned _ _,
    (
      object_meta-IsOwned _ _,
      (
        assembled-OnValue (λ o. IsOwned farmer.meta (meta_of o)) deployment
            (assemble_deployment K farmer) workload-IsOwned,
        tt,
      ),
    ),
  )
