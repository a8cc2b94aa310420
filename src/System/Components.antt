-- ===== src/System/Components.antt =====
-- What holds of the `Reconcile` methods of the four components alike.
use chia_opera.Base.{◌≡◌, ◌≢◌, refl, none, All-append}
use chia_opera.Kube.{Kube}
use chia_opera.Exec.{returned}
use chia_opera.Client.{
  Client, NamespacedName, ResourceKind, Resource, Fetched, found, chia_node, chia_farmer,
  chia_wallet, chia_harvester, chia_ca,
}
use chia_opera.Common.{root_claim}
use chia_opera.Common.Storage.{PanicsOn}
use chia_opera.Node.Pod.{HasQuantity}
use chia_opera.Plan.Fetched.{Follows}
use chia_opera.Plan.Holds.{IsLawful, IsHealthy, AllHold}
use chia_opera.Plan.Owned.{AllOwned}
use chia_opera.Node
use chia_opera.Farmer
use chia_opera.Wallet
use chia_opera.Harvester
use chia_opera.Ca
use chia_opera.System.{meta_of, reconcile_of, plan_of}

abbrev pub ready_of : (K : Kube) (k : ResourceKind) → Resource K k → Resource K k
ready_of K chia_node = Node.Reconcile.ready
ready_of K chia_farmer = Farmer.Reconcile.ready
ready_of K chia_wallet = Wallet.Reconcile.ready
ready_of K chia_harvester = Harvester.Reconcile.ready
ready_of K chia_ca = Ca.Reconcile.ready

-- The storage that the assembly of the workload does not panic on: a claim for a node's CHIA_ROOT
-- requests a quantity, and another component has no claim for it without a host path.
abbrev pub IsAssembledFrom : (K : Kube) (k : ResourceKind) → Resource K k → Type 0
IsAssembledFrom K chia_node cr = HasQuantity K (root_claim cr.spec.storage)
IsAssembledFrom K chia_farmer cr = ¬ PanicsOn cr.spec.storage
IsAssembledFrom K chia_wallet cr = ¬ PanicsOn cr.spec.storage
IsAssembledFrom K chia_harvester cr = ¬ PanicsOn cr.spec.storage
IsAssembledFrom K chia_ca cr = Unit

module _ {K : Kube} (C : Client K) (req : NamespacedName) where
  -- On every client, for a component of any kind, what `Get` gives decides the call. Once the resource
  -- is fetched the call runs over its plan: the objects are applied in order, the first error or panic
  -- ends the call with it, and the ready status is written after the last object. A resource that is
  -- not found ends the call with no error, and any other error with what `IgnoreNotFound` leaves of
  -- it; then nothing is applied.
  pub component-Follows :
      (k : ResourceKind)
      → k ≢ chia_ca
      → (s t : C.State) (r : Fetched C.Error (Resource K k)) → C.get k req s ≡ (r, t)
      → Follows C k (ready_of K k) (plan_of C k req) r t (reconcile_of C k req s)
  unfolding reconcile_of plan_of
  component-Follows chia_node ne s t r e = Node.Reconcile.node-Follows C req s t r e
  component-Follows chia_farmer ne s t r e = Farmer.Reconcile.farmer-Follows C req s t r e
  component-Follows chia_wallet ne s t r e = Wallet.Reconcile.wallet-Follows C req s t r e
  component-Follows chia_harvester ne s t r e = Harvester.Reconcile.harvester-Follows C req s t r e
  component-Follows chia_ca ne s t r e = absurd (ne refl)

  -- On a lawful client, a call for a fetched component that returns no error leaves every object of
  -- the plan in the cluster, and the resource stored with the ready status.
  pub component_ready :
      (L : IsLawful C) (k : ResourceKind)
      → k ≢ chia_ca
      → (cr : Resource K k) (s t : C.State) (res : C.Result) → C.get k req s ≡ (found cr, t)
      → (reconcile_of C k req s).0 ≡ returned (res, none)
      → AllHold L k (ready_of K k cr) (plan_of C k req cr) (reconcile_of C k req s).1
        × L.Stores k (ready_of K k cr) (reconcile_of C k req s).1
  unfolding reconcile_of plan_of
  component_ready L chia_node ne cr = Node.Reconcile.node_ready C req L cr
  component_ready L chia_farmer ne cr = Farmer.Reconcile.farmer_ready C req L cr
  component_ready L chia_wallet ne cr = Wallet.Reconcile.wallet_ready C req L cr
  component_ready L chia_harvester ne cr = Harvester.Reconcile.harvester_ready C req L cr
  component_ready L chia_ca ne cr = absurd (ne refl)

  -- On a lawful client whose calls do not fail, a call for a fetched component returns no error if its
  -- claim for CHIA_ROOT, where it has one, requests a quantity (a node) or has a host path beside it (a
  -- farmer, a wallet, a harvester); every object of the plan is then in the cluster, and the resource
  -- is stored with the ready status.
  pub component_converges :
      (L : IsLawful C)
      → IsHealthy C
      → (k : ResourceKind) → k ≢ chia_ca
      → (cr : Resource K k) (s t : C.State) → C.get k req s ≡ (found cr, t)
      → IsAssembledFrom K k cr
      → ((reconcile_of C k req s).0 ≡ returned (C.zero_result, none))
        × AllHold L k (ready_of K k cr) (plan_of C k req cr) (reconcile_of C k req s).1
        × L.Stores k (ready_of K k cr) (reconcile_of C k req s).1
  unfolding reconcile_of plan_of
  component_converges L H chia_node ne cr = Node.Reconcile.node_converges C req L H cr
  component_converges L H chia_farmer ne cr = Farmer.Reconcile.farmer_converges C req L H cr
  component_converges L H chia_wallet ne cr = Wallet.Reconcile.wallet_converges C req L H cr
  component_converges L H chia_harvester ne cr =
      Harvester.Reconcile.harvester_converges C req L H cr
  component_converges L H chia_ca ne cr = absurd (ne refl)

  -- Every object that a call for a resource applies lies in the namespace of the resource, has the
  -- resource as its one owner and controller, and is labelled as the operator's and with the resource's
  -- name as its instance, whatever labels the user adds.
  pub plan_of-AllOwned :
      (k : ResourceKind) (cr : Resource K k) → AllOwned (meta_of K k cr) (plan_of C k req cr)
  unfolding plan_of
  plan_of-AllOwned chia_node cr = Node.Owned.node-plan-AllOwned K cr C req
  plan_of-AllOwned chia_farmer cr = Farmer.Owned.farmer-plan-AllOwned K cr C req
  plan_of-AllOwned chia_wallet cr = Wallet.Owned.wallet-plan-AllOwned K cr C req
  plan_of-AllOwned chia_harvester cr = Harvester.Owned.harvester-plan-AllOwned K cr C req
  plan_of-AllOwned chia_ca cr =
      let (before, behind) = Ca.Owned.ca-plan-AllOwned K cr C req in
      All-append _ (Ca.Generate.plan C req cr) (Ca.Generate.job_plan C req cr) before behind
