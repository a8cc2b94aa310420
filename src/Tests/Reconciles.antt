-- ===== src/Tests/Reconciles.antt =====
-- Calls of `Reconcile` for the sample node, farmer, wallet and harvester.
use chia_opera.Base.{◌≡◌, ◌≢◌, refl, true, none, some, nil_dereference}
use chia_opera.Client.{
  Client, NamespacedName, ResourceKind, chia_node, chia_farmer, chia_wallet, chia_harvester,
  chia_ca, Resource, Fetched, found, failed, fetch, ensure,
}
use chia_opera.Common.{chia_root_volume}
use chia_opera.Exec.{returned, panicked}
use chia_opera.Plan.Fetched.{Follows}
use chia_opera.Plan.Holds.{AllHold}
use chia_opera.Plan.Owned.{AllOwned}
use chia_opera.Farmer
use chia_opera.Farmer.Reconcile as FarmerReconcile
use chia_opera.System.{meta_of, reconcile_of, plan_of}
use chia_opera.System.Crashes.{component_crashes, component_unready}
use chia_opera.System.Status.{plan_of-spec}
use chia_opera.System.Components.{
  ready_of, component-Follows, component_ready, component_converges, plan_of-AllOwned,
}
use chia_opera.Tests.Data.{
  sample, claim, directory, root_storage, plot_storage, node, farmer, wallet, harvester, ca,
}
use chia_opera.Tests.Memory.{Cluster, memory, memory-IsLawful, memory-IsHealthy}

abbrev resources : (k : ResourceKind) → Resource sample k
resources chia_node = node (root_storage (some (claim "1Gi")) none)
resources chia_farmer = farmer (root_storage none (some directory))
resources chia_wallet = wallet none
resources chia_harvester = harvester plot_storage
resources chia_ca = ca

abbrev client : Client sample
client = memory sample resources 0

abbrev req : NamespacedName
req = record { namespace = "farm"; name = "my" }

abbrev start : Cluster sample
start = record { objects = λ k. none; written = none; pauses = 0 }

-- A farmer with a claim and no host path, and a node whose claim requests the empty text.
abbrev claimed : (k : ResourceKind) → Resource sample k
claimed chia_farmer = farmer (root_storage (some (claim "1Gi")) none)
claimed chia_node = node (root_storage (some (claim "")) none)
claimed chia_wallet = wallet none
claimed chia_harvester = harvester none
claimed chia_ca = ca

farmer_crashes :
    (FarmerReconcile.reconcile (memory sample claimed 0) req start).0 ≡ panicked nil_dereference
unfolding FarmerReconcile.reconcile fetch ensure Farmer.assemble_deployment chia_root_volume
farmer_crashes = refl

component_converges_example :
    ((reconcile_of client chia_node req start).0 ≡ returned (tt, none))
    × AllHold
        (memory-IsLawful sample resources 0)
        chia_node
        (ready_of sample chia_node (resources chia_node))
        (plan_of client chia_node req (resources chia_node))
        (reconcile_of client chia_node req start).1
    × ((reconcile_of client chia_node req start).1.written
        ≡ some (chia_node, ready_of sample chia_node (resources chia_node)))
unfolding memory-IsLawful
component_converges_example =
    component_converges client req (memory-IsLawful sample resources 0)
      (memory-IsHealthy sample resources 0) chia_node (λ e. cc) (resources chia_node) start start
      refl (λ e. cc)

harvester_returns : (reconcile_of client chia_harvester req start).0 ≡ returned (tt, none)
harvester_returns =
    (component_converges client req (memory-IsLawful sample resources 0)
      (memory-IsHealthy sample resources 0) chia_harvester (λ e. cc) (resources chia_harvester)
      start start refl (λ e. e)).0

component_ready_example :
    AllHold
      (memory-IsLawful sample resources 0)
      chia_harvester
      (ready_of sample chia_harvester (resources chia_harvester))
      (plan_of client chia_harvester req (resources chia_harvester))
      (reconcile_of client chia_harvester req start).1
    × ((reconcile_of client chia_harvester req start).1.written
        ≡ some (chia_harvester, ready_of sample chia_harvester (resources chia_harvester)))
unfolding memory-IsLawful
component_ready_example =
    component_ready client req (memory-IsLawful sample resources 0) chia_harvester (λ e. cc)
      (resources chia_harvester) start start tt refl harvester_returns

component-Follows_example :
    Follows client chia_wallet
      (ready_of sample chia_wallet)
      (plan_of client chia_wallet req)
      (found (resources chia_wallet))
      start
      (reconcile_of client chia_wallet req start)
component-Follows_example =
    component-Follows client req chia_wallet (λ e. cc) start start (found (resources chia_wallet))
      refl

-- Nothing is there under another name.
other_request : Fetched client.Error (Resource sample chia_farmer)
other_request = (client.get chia_farmer (record { namespace = "farm"; name = "other" }) start).0

other_request_fails : other_request ≡ failed true
unfolding other_request
other_request_fails = refl

plan_of-AllOwned_example :
    AllOwned
      (meta_of sample chia_harvester (resources chia_harvester))
      (plan_of client chia_harvester req (resources chia_harvester))
plan_of-AllOwned_example = plan_of-AllOwned client req chia_harvester (resources chia_harvester)

plan_of-spec_example :
    plan_of client chia_node req (resources chia_node)
    ≡ plan_of client chia_node req (ready_of sample chia_node (resources chia_node))
plan_of-spec_example =
    plan_of-spec client req chia_node (resources chia_node)
      (ready_of sample chia_node (resources chia_node)) refl refl

component_crashes_example :
    (reconcile_of (memory sample claimed 0) chia_farmer req start).0 ≡ panicked nil_dereference
component_crashes_example =
    component_crashes (memory sample claimed 0) req (memory-IsHealthy sample claimed 0) chia_farmer
      (claimed chia_farmer) start start refl tt

component_unready_example :
    (reconcile_of (memory sample claimed 0) chia_node req start).0 ≢ returned (tt, none)
component_unready_example =
    component_unready (memory sample claimed 0) req chia_node (claimed chia_node) start start tt
      refl refl
