-- ===== src/Node/Reconcile.antt =====
-- `Reconcile` of internal/controller/chianode_controller.go.
use chia_opera.Base.{
  String, ◌<>◌, true, none, ◌≡◌, refl, [], ◌∷◌, value, bind_eval, bind_eval_of, Distinct-map,
  are_distinct-Distinct, stem_cancel,
}
use chia_opera.Kube.{Kube, service, stateful_set}
use chia_opera.Api.Node.{ChiaNode}
use chia_opera.Exec.{Exec, eval, Outcome, returned, run, ◌>>=◌, ◌>>◌}
use chia_opera.Client.{
  Client, Fetched, NamespacedName, chia_node, Return, found, fetch, ensure, update_ready,
}
use chia_opera.Plan.{Plan, follow, follow-assembled}
use chia_opera.Plan.Fetched.{Follows, fetch-Follows}
use chia_opera.Plan.Keys.{HasDistinctKeys, service_steps-HasDistinctKeys}
use chia_opera.Plan.Holds.{IsLawful, IsHealthy, AllHold, Runs-AllHold, Runs-returned, IsAssembled}
use chia_opera.Common.{root_claim}
use chia_opera.Node.Pod.{HasQuantity, node_statefulset-IsSound}
use chia_opera.Node.{
  object_meta, assemble_base_service, assemble_internal_service, assemble_headless_service,
  assemble_chia_exporter_service, assemble_statefulset,
}

abbrev pub ready : {K : Kube} → ChiaNode K → ChiaNode K
ready node = record node { status = record { ready = true } }

module _ {K : Kube} (C : Client K) (req : NamespacedName) where
  -- The text of `fmt.Errorf`, up to the error that it wraps.
  abbrev pub error_text : String → String
  error_text what =
      "ChiaNodeReconciler ChiaNode="
      <> (C.show_name req <> (" encountered error reconciling node " <> (what <> ": ")))

  unfoldable pub body : Exec C.State (Return C) (Return C)
  body = do
    node ← fetch C chia_node req
    ensure C (error_text "Service") (service (assemble_base_service K node))
    ensure C (error_text "Local Service") (service (assemble_internal_service K node))
    ensure C (error_text "headless Service") (service (assemble_headless_service K node))
    ensure C (error_text "chia-exporter Service") (service (assemble_chia_exporter_service K node))
    workload ← eval (assemble_statefulset K node)
    ensure C (error_text "StatefulSet") (stateful_set workload)
    update_ready C chia_node (ready node)

  unfoldable pub reconcile : C.State → Outcome (Return C) × C.State
  unfolding body
  reconcile = run body

  -- The objects of one resource, in the order in which they are applied.
  unfoldable pub plan : ChiaNode K → Plan K
  plan node =
      (error_text "Service", value (service (assemble_base_service K node)))
      ∷ (error_text "Local Service", value (service (assemble_internal_service K node)))
      ∷ (error_text "headless Service", value (service (assemble_headless_service K node)))
      ∷ (
        error_text "chia-exporter Service",
        value (service (assemble_chia_exporter_service K node)),
      )
      ∷ (
        error_text "StatefulSet",
        bind_eval (assemble_statefulset K node) (λ w. value (stateful_set w)),
      )
      ∷ []

  -- On every client, what `Get` gives decides the call. Once the resource is fetched the call runs
  -- over its plan: the objects are applied in order, the first error or panic ends the call with it,
  -- and the ready status is written after the last object. A resource that is not found ends the call
  -- with no error, and any other error with what `IgnoreNotFound` leaves of it; then nothing is
  -- applied.
  pub node-Follows :
      (s t : C.State) (r : Fetched C.Error (ChiaNode K))
      → C.get chia_node req s ≡ (r, t)
      → Follows C chia_node ready plan r t (reconcile s)
  unfolding reconcile follow plan
  node-Follows s t r e =
      fetch-Follows C chia_node ready plan req
        (λ node. rw (
          follow-assembled C (update_ready C chia_node (ready node)) (error_text "StatefulSet")
            stateful_set (assemble_statefulset K node) []))
        s t r e

  plan-HasDistinctKeys : (node : ChiaNode K) → HasDistinctKeys (plan node)
  unfolding plan object_meta assemble_base_service assemble_internal_service
      assemble_headless_service assemble_chia_exporter_service
  plan-HasDistinctKeys node =
      service_steps-HasDistinctKeys (error_text "StatefulSet") stateful_set
        (assemble_statefulset K node) (λ a e. cc)
        ((error_text "Service", assemble_base_service K node)
          ∷ (error_text "Local Service", assemble_internal_service K node)
          ∷ (error_text "headless Service", assemble_headless_service K node)
          ∷ (error_text "chia-exporter Service", assemble_chia_exporter_service K node)
          ∷ [])
        (Distinct-map (λ suffix. node.meta.name <> suffix) (stem_cancel node.meta.name)
          ("-node" ∷ "-node-internal" ∷ "-node-headless" ∷ "-node-metrics" ∷ [])
          (are_distinct-Distinct
            ("-node" ∷ "-node-internal" ∷ "-node-headless" ∷ "-node-metrics" ∷ []) refl))

  plan-IsAssembled :
      (node : ChiaNode K) → HasQuantity K (root_claim node.spec.storage) → IsAssembled (plan node)
  unfolding plan
  plan-IsAssembled node h =
      let sound = node_statefulset-IsSound K node h in
      (
        (_, refl),
        ((_, refl), ((_, refl), ((_, refl), ((_, bind_eval_of stateful_set sound.0 sound.1), tt)))),
      )

  -- On a lawful client, a call for a fetched resource that returns no error leaves every object of
  -- the plan in the cluster, and the resource stored with the ready status.
  pub node_ready :
      (L : IsLawful C) (node : ChiaNode K) (s t : C.State) (res : C.Result)
      → C.get chia_node req s ≡ (found node, t)
      → (reconcile s).0 ≡ returned (res, none)
      → AllHold L chia_node (ready node) (plan node) (reconcile s).1
        × L.Stores chia_node (ready node) (reconcile s).1
  node_ready L node s t res e ok =
      Runs-AllHold L chia_node (ready node) (node-Follows s t (found node) e) ok
        (plan-HasDistinctKeys node)

  -- On a lawful client whose calls do not fail, a call for a fetched resource whose claim for CHIA_ROOT, if there is one, requests a quantity,
  -- returns no error; every object of the plan is then in the cluster, and the resource is stored
  -- with the ready status.
  pub node_converges :
      (L : IsLawful C)
      → IsHealthy C
      → (node : ChiaNode K) (s t : C.State) → C.get chia_node req s ≡ (found node, t)
      → HasQuantity K (root_claim node.spec.storage)
      → ((reconcile s).0 ≡ returned (C.zero_result, none))
        × AllHold L chia_node (ready node) (plan node) (reconcile s).1
        × L.Stores chia_node (ready node) (reconcile s).1
  node_converges L H node s t e h =
      let returns =
        Runs-returned H chia_node (ready node) (node-Follows s t (found node) e)
          (plan-IsAssembled node h) in
      let (holds, stores) = node_ready L node s t C.zero_result e returns in
      (returns, holds, stores)
