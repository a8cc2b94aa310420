-- ===== src/System.antt =====
-- The operator as a whole: the `Reconcile` method that the manager calls for a kind, by the
-- `SetupWithManager` methods of internal/controller, and the objects that a call is about.
pub mod Claims
pub mod Apart
pub mod Acts
pub mod Traces
pub mod CaTraces
pub mod Calls
pub mod Components
pub mod Status
pub mod Crashes
pub mod Interleaved
pub mod CaReady
pub mod CaInterleaved
pub mod Bounded
pub mod Stays
pub mod Settled
pub mod CaSettled
use chia_opera.Base.{String, ◌++◌}
use chia_opera.Kube.{Kube}
use chia_opera.Api.Common.{ResourceMeta}
use chia_opera.Exec.{Outcome}
use chia_opera.Client.{
  Client, NamespacedName, ResourceKind, Resource, Return, chia_node, chia_farmer, chia_wallet,
  chia_harvester, chia_ca,
}
use chia_opera.Plan.{Plan}
use chia_opera.Node
use chia_opera.Farmer
use chia_opera.Wallet
use chia_opera.Harvester
use chia_opera.Ca

abbrev pub meta_of : (K : Kube) (k : ResourceKind) → Resource K k → ResourceMeta
meta_of K chia_node cr = cr.meta
meta_of K chia_farmer cr = cr.meta
meta_of K chia_wallet cr = cr.meta
meta_of K chia_harvester cr = cr.meta
meta_of K chia_ca cr = cr.meta

module _ {K : Kube} (C : Client K) where
  -- The method of the reconciler that is registered for the kind.
  unfoldable pub reconcile_of :
      ResourceKind → NamespacedName → C.State → Outcome (Return C) × C.State
  reconcile_of chia_node = Node.Reconcile.reconcile C
  reconcile_of chia_farmer = Farmer.Reconcile.reconcile C
  reconcile_of chia_wallet = Wallet.Reconcile.reconcile C
  reconcile_of chia_harvester = Harvester.Reconcile.reconcile C
  reconcile_of chia_ca = Ca.Reconcile.reconcile C

  -- All objects that a call for the resource may apply.
  unfoldable pub plan_of : (k : ResourceKind) → NamespacedName → Resource K k → Plan K
  plan_of chia_node req cr = Node.Reconcile.plan C req cr
  plan_of chia_farmer req cr = Farmer.Reconcile.plan C req cr
  plan_of chia_wallet req cr = Wallet.Reconcile.plan C req cr
  plan_of chia_harvester req cr = Harvester.Reconcile.plan C req cr
  plan_of chia_ca req cr = Ca.Generate.plan C req cr ++ Ca.Generate.job_plan C req cr
