-- ===== src/Harvester/Reconcile.antt =====
-- `Reconcile` of internal/controller/chiaharvester_controller.go.
use chia_opera.Base.{
  String, ◌<>◌, true, none, ◌≡◌, refl, [], ◌∷◌, value, bind_eval, bind_eval_of, Distinct-map,
  are_distinct-Distinct, stem_cancel,
}
use chia_opera.Kube.{Kube, service, deployment}
use chia_opera.Api.Harvester.{ChiaHarvester}
use chia_opera.Exec.{Exec, eval, Outcome, returned, run, ◌>>=◌, ◌>>◌}
use chia_opera.Client.{
  Client, Fetched, NamespacedName, chia_harvester, Return, found, fetch, ensure, update_ready,
}
use chia_opera.Plan.{Plan, follow, follow-assembled}
use chia_opera.Plan.Fetched.{Follows, fetch-Follows}
use chia_opera.Plan.Keys.{HasDistinctKeys, service_steps-HasDistinctKeys}
use chia_opera.Plan.Holds.{IsLawful, IsHealthy, AllHold, Runs-AllHold, Runs-returned, IsAssembled}
use chia_opera.Common.Storage.{PanicsOn}
use chia_opera.Harvester.Pod.{harvester_deployment-IsSound}
use chia_opera.Harvester.{
  object_meta, assemble_base_service, assemble_chia_exporter_service, assemble_deployment,
}

abbrev pub ready : {K : Kube} → ChiaHarvester K → ChiaHarvester K
ready harvester = record harvester { status = record { ready = true } }

module _ {K : Kube} (C : Client K) (req : NamespacedName) where
  -- The text of `fmt.Errorf`, up to the error that it wraps.
  abbrev pub error_text : String → String
  error_text what =
      "ChiaHarvesterReconciler ChiaHarvester="
      <> (C.show_name req <> (" encountered error reconciling harvester " <> (what <> ": ")))

  unfoldable pub body : Exec C.State (Return C) (Return C)
  body = do
    harvester ← fetch C chia_harvester req
    ensure C (error_text "Service") (service (assemble_base_service K harvester))
    ensure C (error_text "chia-exporter Service")
        (service (assemble_chia_exporter_service K harvester))
    workload ← eval (assemble_deployment K harvester)
    ensure C (error_text "Deployment") (deployment workload)
    update_ready C chia_harvester (ready harvester)

  unfoldable pub reconcile : C.State → Outcome (Return C) × C.State
  unfolding body
  reconcile = run body

  -- The objects of one resource, in the order in which they are applied.
  unfoldable pub plan : ChiaHarvester K → Plan K
  plan harvester =
      (error_text "Service", value (service (assemble_base_service K harvester)))
      ∷ (
        error_text "chia-exporter Service",
        value (service (assemble_chia_exporter_service K harvester)),
      )
      ∷ (
        error_text "Deployment",
        bind_eval (assemble_deployment K harvester) (λ w. value (deployment w)),
      )
      ∷ []

  -- On every client, what `Get` gives decides the call. Once the resource is fetched the call runs
  -- over its plan: the objects are applied in order, the first error or panic ends the call with it,
  -- and the ready status is written after the last object. A resource that is not found ends the call
  -- with no error, and any other error with what `IgnoreNotFound` leaves of it; then nothing is
  -- applied.
  pub harvester-Follows :
      (s t : C.State) (r : Fetched C.Error (ChiaHarvester K))
      → C.get chia_harvester req s ≡ (r, t)
      → Follows C chia_harvester ready plan r t (reconcile s)
  unfolding reconcile follow plan
  harvester-Follows s t r e =
      fetch-Follows C chia_harvester ready plan req
        (λ harvester. rw (
          follow-assembled C (update_ready C chia_harvester (ready harvester))
            (error_text "Deployment") deployment (assemble_deployment K harvester) []))
        s t r e

  plan-HasDistinctKeys : (harvester : ChiaHarvester K) → HasDistinctKeys (plan harvester)
  unfolding plan object_meta assemble_base_service assemble_chia_exporter_service
  plan-HasDistinctKeys harvester =
      service_steps-HasDistinctKeys (error_text "Deployment") deployment
        (assemble_deployment K harvester) (λ a e. cc)
        ((error_text "Service", assemble_base_service K harvester)
          ∷ (error_text "chia-exporter Service", assemble_chia_exporter_service K harvester)
          ∷ [])
        (Distinct-map (λ suffix. harvester.meta.name <> suffix) (stem_cancel harvester.meta.name)
          ("-harvester" ∷ "-harvester-metrics" ∷ [])
          (are_distinct-Distinct ("-harvester" ∷ "-harvester-metrics" ∷ []) refl))

  plan-IsAssembled :
      (harvester : ChiaHarvester K)
      → ¬ PanicsOn harvester.spec.storage
      → IsAssembled (plan harvester)
  unfolding plan
  plan-IsAssembled harvester h =
      let sound = harvester_deployment-IsSound K harvester h in
      ((_, refl), ((_, refl), ((_, bind_eval_of deployment sound.0 sound.1), tt)))

  -- On a lawful client, a call for a fetched resource that returns no error leaves every object of
  -- the plan in the cluster, and the resource stored with the ready status.
  pub harvester_ready :
      (L : IsLawful C) (harvester : ChiaHarvester K) (s t : C.State) (res : C.Result)
      → C.get chia_harvester req s ≡ (found harvester, t)
      → (reconcile s).0 ≡ returned (res, none)
      → AllHold L chia_harvester (ready harvester) (plan harvester) (reconcile s).1
        × L.Stores chia_harvester (ready harvester) (reconcile s).1
  harvester_ready L harvester s t res e ok =
      Runs-AllHold L chia_harvester (ready harvester) (harvester-Follows s t (found harvester) e) ok
        (plan-HasDistinctKeys harvester)

  -- On a lawful client whose calls do not fail, a call for a fetched resource without a claim for CHIA_ROOT that has no host path beside it
  -- returns no error; every object of the plan is then in the cluster, and the resource is stored
  -- with the ready status.
  pub harvester_converges :
      (L : IsLawful C)
      → IsHealthy C
      → (harvester : ChiaHarvester K) (s t : C.State)
      → C.get chia_harvester req s ≡ (found harvester, t)
      → ¬ PanicsOn harvester.spec.storage
      → ((reconcile s).0 ≡ returned (C.zero_result, none))
        × AllHold L chia_harvester (ready harvester) (plan harvester) (reconcile s).1
        × L.Stores chia_harvester (ready harvester) (reconcile s).1
  harvester_converges L H harvester s t e h =
      let returns =
        Runs-returned H chia_harvester (ready harvester) (harvester-Follows s t (found harvester) e)
          (plan-IsAssembled harvester h) in
      let (holds, stores) = harvester_ready L harvester s t C.zero_result e returns in
      (returns, holds, stores)
