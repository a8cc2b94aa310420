-- ===== src/Wallet/Owned.antt =====
-- The objects of a ChiaWallet belong to it.
use chia_opera.Base.{
  assembled-OnValue, String, ◌<>◌, ◌≡◌, subst, List, [], ◌∷◌, StringMap, value, bind_eval-eq-value,
}
use chia_opera.Kube.{Kube, Deployment, deployment}
use chia_opera.Api.Wallet.{ChiaWallet}
use chia_opera.Client.{Client, NamespacedName}
use chia_opera.Plan.Owned.{meta_of, IsOwned, AllOwned, component-IsOwned}
use chia_opera.Wallet.{
  object_meta, get_common_labels, assemble_base_service, assemble_chia_exporter_service,
  assemble_deployment, get_chia_volumes,
}
use chia_opera.Wallet.Reconcile.{plan}

module _ (K : Kube) (wallet : ChiaWallet K) where
  object_meta-IsOwned :
      (suffix : String) (added : List StringMap)
      → IsOwned wallet.meta (object_meta K wallet suffix added)
  unfolding object_meta get_common_labels
  object_meta-IsOwned suffix added =
      component-IsOwned wallet.meta "chiawallet-owner" (wallet.meta.name <> suffix)
        wallet.spec.additional_metadata.annotations added

  -- An assembled workload has the meta data of the literal.
  pub workload-meta :
      (w : Deployment K)
      → assemble_deployment K wallet ≡ value w
      → object_meta K wallet "-wallet" (wallet.spec.additional_metadata.labels ∷ []) ≡ w.meta
  unfolding assemble_deployment
  workload-meta w e =
      let (r, _, made) = bind_eval-eq-value (get_chia_volumes K wallet) _ e in cc made

  workload-IsOwned :
      (w : Deployment K) → assemble_deployment K wallet ≡ value w → IsOwned wallet.meta w.meta
  workload-IsOwned w e =
      subst (λ m. IsOwned wallet.meta m) (workload-meta w e)
        (object_meta-IsOwned "-wallet" (wallet.spec.additional_metadata.labels ∷ []))

  -- Every object of the plan lies in the namespace of the resource, has the resource as its one owner
  -- and controller, and is labelled as the operator's and with the resource's name as its instance,
  -- whatever labels the user adds.
  pub wallet-plan-AllOwned :
      (C : Client K) (req : NamespacedName) → AllOwned wallet.meta (plan C req wallet)
  unfolding plan assemble_base_service assemble_chia_exporter_service
  wallet-plan-AllOwned C req = (
    object_meta-IsOwned _ _,
    (
      object_meta-IsOwned _ _,
      (
        assembled-OnValue (λ o. IsOwned wallet.meta (meta_of o)) deployment
            (assemble_deployment K wallet) workload-IsOwned,
        tt,
      ),
    ),
  )
