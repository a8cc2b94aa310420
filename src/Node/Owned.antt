-- ===== src/Node/Owned.antt =====
-- The objects of a ChiaNode belong to it.
use chia_opera.Base.{
  assembled-OnValue, String, ◌<>◌, ◌≡◌, subst, List, [], ◌∷◌, StringMap, value, bind_eval-eq-value,
}
use chia_opera.Kube.{Kube, StatefulSet, stateful_set}
use chia_opera.Api.Node.{ChiaNode}
use chia_opera.Client.{Client, NamespacedName}
use chia_opera.Plan.Owned.{meta_of, IsOwned, AllOwned, component-IsOwned}
use chia_opera.Node.{
  object_meta, get_common_labels, assemble_base_service, assemble_internal_service,
  assemble_headless_service, assemble_chia_exporter_service, assemble_statefulset,
  get_chia_volumes_and_templates, statefulset_of,
}
use chia_opera.Node.Reconcile.{plan}

module _ (K : Kube) (node : ChiaNode K) where
  object_meta-IsOwned :
      (suffix : String) (added : List StringMap)
      → IsOwned node.meta (object_meta K node suffix added)
  unfolding object_meta get_common_labels
  object_meta-IsOwned suffix added =
      component-IsOwned node.meta "chianode-owner" (node.meta.name <> suffix)
        node.spec.additional_metadata.annotations added

  -- An assembled workload has the meta data of the literal.
  pub workload-meta :
      (w : StatefulSet K)
      → assemble_statefulset K node ≡ value w
      → object_meta K node "-node" (node.spec.additional_metadata.labels ∷ []) ≡ w.meta
  unfolding assemble_statefulset statefulset_of
  workload-meta w e =
      let (r, _, made) = bind_eval-eq-value (get_chia_volumes_and_templates K node) _ e in cc made

  workload-IsOwned :
      (w : StatefulSet K) → assemble_statefulset K node ≡ value w → IsOwned node.meta w.meta
  workload-IsOwned w e =
      subst (λ m. IsOwned node.meta m) (workload-meta w e)
        (object_meta-IsOwned "-node" (node.spec.additional_metadata.labels ∷ []))

  -- Every object of the plan lies in the namespace of the resource, has the resource as its one owner
  -- and controller, and is labelled as the operator's and with the resource's name as its instance,
  -- whatever labels the user adds.
  pub node-plan-AllOwned :
      (C : Client K) (req : NamespacedName) → AllOwned node.meta (plan C req node)
  unfolding plan assemble_base_service assemble_internal_service assemble_headless_service
      assemble_chia_exporter_service
  node-plan-AllOwned C req = (
    object_meta-IsOwned _ _,
    (
      object_meta-IsOwned _ _,
      (
        object_meta-IsOwned _ _,
        (
          object_meta-IsOwned _ _,
          (
            assembled-OnValue (λ o. IsOwned node.meta (meta_of o)) stateful_set
                (assemble_statefulset K node) workload-IsOwned,
            tt,
          ),
        ),
      ),
    ),
  )
