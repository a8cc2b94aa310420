-- ===== src/Farmer/Reconcile.antt =====
-- `Reconcile` of internal/controller/chiafarmer_controller.go.
use chia_opera.Base.{
  String, ◌<>◌, true, none, ◌≡◌, refl, [], ◌∷◌, value, bind_eval, bind_eval_of, Distinct-map,
  are_distinct-Distinct, stem_cancel,
}
use chia_opera.Kube.{Kube, service, deployment}
use chia_opera.Api.Farmer.{ChiaFarmer}
use chia_opera.Exec.{Exec, eval, Outcome, returned, run, ◌>>=◌, ◌>>◌}
use chia_opera.Client.{
  Client, Fetched, NamespacedName, chia_farmer, Return, found, fetch, ensure, update_ready,
}
use chia_opera.Plan.{Plan, follow, follow-assembled}
use chia_opera.Plan.Fetched.{Follows, fetch-Follows}
use chia_opera.Plan.Keys.{HasDistinctKeys, service_steps-HasDistinctKeys}
use chia_opera.Plan.Holds.{IsLawful, IsHealthy, AllHold, Runs-AllHold, Runs-returned, IsAssembled}
use chia_opera.Common.Storage.{PanicsOn}
use chia_opera.Farmer.Pod.{farmer_deployment-IsSound}
use chia_opera.Farmer.{
  object_meta, assemble_base_service, assemble_chia_exporter_service, assemble_deployment,
}

abbrev pub ready : {K : Kube} → ChiaFarmer K → ChiaFarmer K
ready farmer = record farmer { status = record { ready = true } }

module _ {K : Kube} (C : Client K) (req : NamespacedName) where
  -- The text of `fmt.Errorf`, up to the error that it wraps.
  abbrev pub error_text : String → String
  error_text what =
      "ChiaFarmerReconciler ChiaFarmer="
      <> (C.show_name req <> (" encountered error reconciling farmer " <> (what <> ": ")))

  unfoldable pub body : Exec C.State (Return C) (Return C)
  body = do
    farmer ← fetch C chia_farmer req
    ensure C (error_text "Service") (service (assemble_base_service K farmer))
    ensure C (error_text "chia-exporter Service")
        (service (assemble_chia_exporter_service K farmer))
    workload ← eval (assemble_deployment K farmer)
    ensure C (error_text "Deployment") (deployment workload)
    update_ready C chia_farmer (ready farmer)

  unfoldable pub reconcile : C.State → Outcome (Return C) × C.State
  unfolding body
  reconcile = run body

  -- The objects of one resource, in the order in which they are applied.
  unfoldable pub plan : ChiaFarmer K → Plan K
  plan farmer =
      (error_text "Service", value (service (assemble_base_service K farmer)))
      ∷ (
        error_text "chia-exporter Service",
        value (service (assemble_chia_exporter_service K farmer)),
      )
      ∷ (
        error_text "Deployment",
        bind_eval (assemble_deployment K farmer) (λ w. value (deployment w)),
      )
      ∷ []

  -- On every client, what `Get` gives decides the call. Once the resource is fetched the call runs
  -- over its plan: the objects are applied in order, the first error or panic ends the call with it,
  -- and the ready status is written after the last object. A resource that is not found ends the call
  -- with no error, and any other error with what `IgnoreNotFound` leaves of it; then nothing is
  -- applied.
  pub farmer-Follows :
      (s t : C.State) (r : Fetched C.Error (ChiaFarmer K))
      → C.get chia_farmer req s ≡ (r, t)
      → Follows C chia_farmer ready plan r t (reconcile s)
  unfolding reconcile follow plan
  farmer-Follows s t r e =
      fetch-Follows C chia_farmer ready plan req
        (λ farmer. rw (
          follow-assembled C (update_ready C chia_farmer (ready farmer)) (error_text "Deployment")
            deployment (assemble_deployment K farmer) []))
        s t r e

  plan-HasDistinctKeys : (farmer : ChiaFarmer K) → HasDistinctKeys (plan farmer)
  unfolding plan object_meta assemble_base_service assemble_chia_exporter_service
  plan-HasDistinctKeys farmer =
      service_steps-HasDistinctKeys (error_text "Deployment") deployment
        (assemble_deployment K farmer) (λ a e. cc)
        ((error_text "Service", assemble_base_service K farmer)
          ∷ (error_text "chia-exporter Service", assemble_chia_exporter_service K farmer)
          ∷ [])
        (Distinct-map (λ suffix. farmer.meta.name <> suffix) (stem_cancel farmer.meta.name)
          ("-farmer" ∷ "-farmer-metrics" ∷ [])
          (are_distinct-Distinct ("-farmer" ∷ "-farmer-metrics" ∷ []) refl))

  plan-IsAssembled :
      (farmer : ChiaFarmer K) → ¬ PanicsOn farmer.spec.storage → IsAssembled (plan farmer)
  unfolding plan
  plan-IsAssembled farmer h =
      let sound = farmer_deployment-IsSound K farmer h in
      ((_, refl), ((_, refl), ((_, bind_eval_of deployment sound.0 sound.1), tt)))

  -- On a lawful client, a call for a fetched resource that returns no error leaves every object of
  -- the plan in the cluster, and the resource stored with the ready status.
  pub farmer_ready :
      (L : IsLawful C) (farmer : ChiaFarmer K) (s t : C.State) (res : C.Result)
      → C.get chia_farmer req s ≡ (found farmer, t)
      → (reconcile s).0 ≡ returned (res, none)
      → AllHold L chia_farmer (ready farmer) (plan farmer) (reconcile s).1
        × L.Stores chia_farmer (ready farmer) (reconcile s).1
  farmer_ready L farmer s t res e ok =
      Runs-AllHold L chia_farmer (ready farmer) (farmer-Follows s t (found farmer) e) ok
        (plan-HasDistinctKeys farmer)

  -- On a lawful client whose calls do not fail, a call for a fetched resource without a claim for CHIA_ROOT that has no host path beside it
  -- returns no error; every object of the plan is then in the cluster, and the resource is stored
  -- with the ready status.
  pub farmer_converges :
      (L : IsLawful C)
      → IsHealthy C
      → (farmer : ChiaFarmer K) (s t : C.State) → C.get chia_farmer req s ≡ (found farmer, t)
      → ¬ PanicsOn farmer.spec.storage
      → ((reconcile s).0 ≡ returned (C.zero_result, none))
        × AllHold L chia_farmer (ready farmer) (plan farmer) (reconcile s).1
        × L.Stores chia_farmer (ready farmer) (reconcile s).1
  farmer_converges L H farmer s t e h =
      let returns =
        Runs-returned H chia_farmer (ready farmer) (farmer-Follows s t (found farmer) e)
          (plan-IsAssembled farmer h) in
      let (holds, stores) = farmer_ready L farmer s t C.zero_result e returns in
      (returns, holds, stores)
