-- ===== src/Wallet/Reconcile.antt =====
-- `Reconcile` of internal/controller/chiawallet_controller.go.
use chia_opera.Base.{
  String, ◌<>◌, true, none, ◌≡◌, refl, [], ◌∷◌, value, bind_eval, bind_eval_of, Distinct-map,
  are_distinct-Distinct, stem_cancel,
}
use chia_opera.Kube.{Kube, service, deployment}
use chia_opera.Api.Wallet.{ChiaWallet}
use chia_opera.Exec.{Exec, eval, Outcome, returned, run, ◌>>=◌, ◌>>◌}
use chia_opera.Client.{
  Client, Fetched, NamespacedName, chia_wallet, Return, found, fetch, ensure, update_ready,
}
use chia_opera.Plan.{Plan, follow, follow-assembled}
use chia_opera.Plan.Fetched.{Follows, fetch-Follows}
use chia_opera.Plan.Keys.{HasDistinctKeys, service_steps-HasDistinctKeys}
use chia_opera.Plan.Holds.{IsLawful, IsHealthy, AllHold, Runs-AllHold, Runs-returned, IsAssembled}
use chia_opera.Common.Storage.{PanicsOn}
use chia_opera.Wallet.Pod.{wallet_deployment-IsSound}
use chia_opera.Wallet.{
  object_meta, assemble_base_service, assemble_chia_exporter_service, assemble_deployment,
}

abbrev pub ready : {K : Kube} → ChiaWallet K → ChiaWallet K
ready wallet = record wallet { status = record { ready = true } }

module _ {K : Kube} (C : Client K) (req : NamespacedName) where
  -- The text of `fmt.Errorf`, up to the error that it wraps.
  abbrev pub error_text : String → String
  error_text what =
      "ChiaWalletReconciler ChiaWallet="
      <> (C.show_name req <> (" encountered error reconciling wallet " <> (what <> ": ")))

  unfoldable pub body : Exec C.State (Return C) (Return C)
  body = do
    wallet ← fetch C chia_wallet req
    ensure C (error_text "Service") (service (assemble_base_service K wallet))
    ensure C (error_text "chia-exporter Service")
        (service (assemble_chia_exporter_service K wallet))
    workload ← eval (assemble_deployment K wallet)
    ensure C (error_text "Deployment") (deployment workload)
    update_ready C chia_wallet (ready wallet)

  unfoldable pub reconcile : C.State → Outcome (Return C) × C.State
  unfolding body
  reconcile = run body

  -- The objects of one resource, in the order in which they are applied.
  unfoldable pub plan : ChiaWallet K → Plan K
  plan wallet =
      (error_text "Service", value (service (assemble_base_service K wallet)))
      ∷ (
        error_text "chia-exporter Service",
        value (service (assemble_chia_exporter_service K wallet)),
      )
      ∷ (
        error_text "Deployment",
        bind_eval (assemble_deployment K wallet) (λ w. value (deployment w)),
      )
      ∷ []

  -- On every client, what `Get` gives decides the call. Once the resource is fetched the call runs
  -- over its plan: the objects are applied in order, the first error or panic ends the call with it,
  -- and the ready status is written after the last object. A resource that is not found ends the call
  -- with no error, and any other error with what `IgnoreNotFound` leaves of it; then nothing is
  -- applied.
  pub wallet-Follows :
      (s t : C.State) (r : Fetched C.Error (ChiaWallet K))
      → C.get chia_wallet req s ≡ (r, t)
      → Follows C chia_wallet ready plan r t (reconcile s)
  unfolding reconcile follow plan
  wallet-Follows s t r e =
      fetch-Follows C chia_wallet ready plan req
        (λ wallet. rw (
          follow-assembled C (update_ready C chia_wallet (ready wallet)) (error_text "Deployment")
            deployment (assemble_deployment K wallet) []))
        s t r e

  plan-HasDistinctKeys : (wallet : ChiaWallet K) → HasDistinctKeys (plan wallet)
  unfolding plan object_meta assemble_base_service assemble_chia_exporter_service
  plan-HasDistinctKeys wallet =
      service_steps-HasDistinctKeys (error_text "Deployment") deployment
        (assemble_deployment K wallet) (λ a e. cc)
        ((error_text "Service", assemble_base_service K wallet)
          ∷ (error_text "chia-exporter Service", assemble_chia_exporter_service K wallet)
          ∷ [])
        (Distinct-map (λ suffix. wallet.meta.name <> suffix) (stem_cancel wallet.meta.name)
          ("-wallet" ∷ "-wallet-metrics" ∷ [])
          (are_distinct-Distinct ("-wallet" ∷ "-wallet-metrics" ∷ []) refl))

  plan-IsAssembled :
      (wallet : ChiaWallet K) → ¬ PanicsOn wallet.spec.storage → IsAssembled (plan wallet)
  unfolding plan
  plan-IsAssembled wallet h =
      let sound = wallet_deployment-IsSound K wallet h in
      ((_, refl), ((_, refl), ((_, bind_eval_of deployment sound.0 sound.1), tt)))

  -- On a lawful client, a call for a fetched resource that returns no error leaves every object of
  -- the plan in the cluster, and the resource stored with the ready status.
  pub wallet_ready :
      (L : IsLawful C) (wallet : ChiaWallet K) (s t : C.State) (res : C.Result)
      → C.get chia_wallet req s ≡ (found wallet, t)
      → (reconcile s).0 ≡ returned (res, none)
      → AllHold L chia_wallet (ready wallet) (plan wallet) (reconcile s).1
        × L.Stores chia_wallet (ready wallet) (reconcile s).1
  wallet_ready L wallet s t res e ok =
      Runs-AllHold L chia_wallet (ready wallet) (wallet-Follows s t (found wallet) e) ok
        (plan-HasDistinctKeys wallet)

  -- On a lawful client whose calls do not fail, a call for a fetched resource without a claim for CHIA_ROOT that has no host path beside it
  -- returns no error; every object of the plan is then in the cluster, and the resource is stored
  -- with the ready status.
  pub wallet_converges :
      (L : IsLawful C)
      → IsHealthy C
      → (wallet : ChiaWallet K) (s t : C.State) → C.get chia_wallet req s ≡ (found wallet, t)
      → ¬ PanicsOn wallet.spec.storage
      → ((reconcile s).0 ≡ returned (C.zero_result, none))
        × AllHold L chia_wallet (ready wallet) (plan wallet) (reconcile s).1
        × L.Stores chia_wallet (ready wallet) (reconcile s).1
  wallet_converges L H wallet s t e h =
      let returns =
        Runs-returned H chia_wallet (ready wallet) (wallet-Follows s t (found wallet) e)
          (plan-IsAssembled wallet h) in
      let (holds, stores) = wallet_ready L wallet s t C.zero_result e returns in
      (returns, holds, stores)
