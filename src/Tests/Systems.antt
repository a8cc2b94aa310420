-- ===== src/Tests/Systems.antt =====
-- Calls for the sample resources side by side: a farmer's, while a wallet is reconciled before each of
-- its client calls.
use chia_opera.Base.{ℕ, ◌+◌, ◌≤◌, ◌≡◌, ◌≢◌, refl, none, some, head}
use chia_opera.Kube.{service}
use chia_opera.Exec.{returned}
use chia_opera.Client.{
  Client, NamespacedName, ResourceKind, chia_node, chia_farmer, chia_wallet, chia_harvester,
  chia_ca, Resource,
}
use chia_opera.Plan.Keys.{key}
use chia_opera.Plan.Reached.{AllIn}
use chia_opera.Farmer
use chia_opera.Farmer.Reconcile as FarmerReconcile
use chia_opera.Wallet
use chia_opera.Wallet.Reconcile as WalletReconcile
use chia_opera.System.{reconcile_of, plan_of}
use chia_opera.System.Apart.{ResourceId, id_of, plans-apart}
use chia_opera.System.Acts.{Acts, Steps}
use chia_opera.System.Calls.{reconcile_of-Steps}
use chia_opera.System.Stays.{OthersAct, others_call, plan_of-stays}
use chia_opera.System.Settled.{second_call}
use chia_opera.System.Components.{ready_of}
use chia_opera.System.Interleaved.{interleaved, interleaved_ready, interleaved_converges}
use chia_opera.System.Bounded.{most_calls, reconcile_of-le}
use chia_opera.Tests.Data.{
  sample, directory, root_storage, plot_storage, node, farmer, wallet, harvester, ca,
}
use chia_opera.Tests.Memory.{
  Cluster, memory, memory-IsLawful, memory-IsHealthy, memory-IsAddressed, memory-KeepsByReading,
  memory-WritesOnlyChanges,
}

abbrev resources : (k : ResourceKind) → Resource sample k
resources chia_node = node none
resources chia_farmer = farmer (root_storage none (some directory))
resources chia_wallet = wallet none
resources chia_harvester = harvester plot_storage
resources chia_ca = ca

abbrev client : Client sample
client = memory sample resources 0

abbrev req : NamespacedName
req = record { namespace = "farm"; name = "my" }

abbrev start : Cluster sample
start = record { objects = λ k. none; written = none; pauses = 0 }

abbrev mine : ResourceId
mine = id_of sample chia_farmer (resources chia_farmer)

reconcile_of-Steps_example :
    Steps (Acts client chia_ca req) start (reconcile_of client chia_ca req start).1
reconcile_of-Steps_example =
    reconcile_of-Steps client (memory-IsAddressed sample resources 0) req chia_ca start

plans-apart_example :
    key {K = sample} (service (Farmer.assemble_base_service sample (resources chia_farmer)))
    ≢ key {K = sample} (service (Wallet.assemble_base_service sample (resources chia_wallet)))
unfolding plan_of FarmerReconcile.plan WalletReconcile.plan
plans-apart_example =
    plans-apart client chia_farmer chia_wallet (resources chia_farmer) (resources chia_wallet) req
      req (λ e. cc e) (service (Farmer.assemble_base_service sample (resources chia_farmer)))
      (service (Wallet.assemble_base_service sample (resources chia_wallet))) (_, head refl)
      (_, head refl)

-- The others reconcile the wallet.
abbrev schedule : ℕ → Cluster sample → Cluster sample
schedule n s = (reconcile_of client chia_wallet req s).1

by_others : (n : ℕ) (s : Cluster sample) → Steps (OthersAct client mine) s (schedule n s)
by_others n s =
    others_call chia_wallet req (λ e. cc e)
      (reconcile_of-Steps client (memory-IsAddressed sample resources 0) req chia_wallet s)

interleaved_converges_example :
    ((reconcile_of (interleaved client schedule) chia_farmer req (start, 0)).0
      ≡ returned (tt, none))
    × AllIn
        (memory-IsLawful sample resources 0)
        (plan_of client chia_farmer req (resources chia_farmer))
        (reconcile_of (interleaved client schedule) chia_farmer req (start, 0)).1.0
    × (memory-IsLawful sample resources 0).Stores chia_farmer
        (ready_of sample chia_farmer (resources chia_farmer))
        (reconcile_of (interleaved client schedule) chia_farmer req (start, 0)).1.0
interleaved_converges_example =
    interleaved_converges (memory-IsLawful sample resources 0)
      (memory-KeepsByReading sample resources 0) schedule chia_farmer (resources chia_farmer) req
      by_others (memory-IsHealthy sample resources 0) (λ e. cc) (start, 0) (schedule 0 start, 1)
      refl (λ e. e)

farmer_returns :
    (reconcile_of (interleaved client schedule) chia_farmer req (start, 0)).0 ≡ returned (tt, none)
farmer_returns =
    (interleaved_converges (memory-IsLawful sample resources 0)
      (memory-KeepsByReading sample resources 0) schedule chia_farmer (resources chia_farmer) req
      by_others (memory-IsHealthy sample resources 0) (λ e. cc) (start, 0) (schedule 0 start, 1)
      refl (λ e. e)).0

interleaved_ready_example :
    AllIn
      (memory-IsLawful sample resources 0)
      (plan_of client chia_farmer req (resources chia_farmer))
      (reconcile_of (interleaved client schedule) chia_farmer req (start, 0)).1.0
    × (memory-IsLawful sample resources 0).Stores chia_farmer
        (ready_of sample chia_farmer (resources chia_farmer))
        (reconcile_of (interleaved client schedule) chia_farmer req (start, 0)).1.0
interleaved_ready_example =
    interleaved_ready (memory-IsLawful sample resources 0)
      (memory-KeepsByReading sample resources 0) schedule chia_farmer (resources chia_farmer) req
      by_others (λ e. cc) (start, 0) (schedule 0 start, 1) tt refl farmer_returns

-- The cluster after the farmer's call, and after the wallet's behind it.
abbrev farmed : Cluster sample
farmed = (reconcile_of (interleaved client schedule) chia_farmer req (start, 0)).1.0

farmer_there :
    AllIn
      (memory-IsLawful sample resources 0)
      (plan_of client chia_farmer req (resources chia_farmer))
      farmed
farmer_there =
    (interleaved_ready (memory-IsLawful sample resources 0)
      (memory-KeepsByReading sample resources 0) schedule chia_farmer (resources chia_farmer) req
      by_others (λ e. cc) (start, 0) (schedule 0 start, 1) tt refl farmer_returns).0

plan_of-stays_example :
    AllIn
      (memory-IsLawful sample resources 0)
      (plan_of client chia_farmer req (resources chia_farmer))
      (schedule 0 farmed)
plan_of-stays_example =
    plan_of-stays (memory-IsLawful sample resources 0) (memory-KeepsByReading sample resources 0)
      chia_farmer (resources chia_farmer) req farmed (schedule 0 farmed) farmer_there
      (by_others 0 farmed)

second_call_example :
    reconcile_of client chia_farmer req (schedule 0 (reconcile_of client chia_farmer req start).1)
    ≡ (
      returned (tt, none),
      (client.update_status chia_farmer
          (ready_of sample chia_farmer (resources chia_farmer))
          (schedule 0 (reconcile_of client chia_farmer req start).1)).1,
    )
second_call_example =
    let first = (reconcile_of client chia_farmer req start).1 in
    second_call (memory-IsLawful sample resources 0) (memory-KeepsByReading sample resources 0)
      (memory-IsHealthy sample resources 0) (memory-WritesOnlyChanges sample resources 0)
      chia_farmer (λ e. cc) req (resources chia_farmer) (resources chia_farmer) start start
      (schedule 0 first) (schedule 0 first) refl (λ e. e) (by_others 0 first) refl refl refl

reconcile_of-le_example :
    (reconcile_of (interleaved client schedule) chia_ca req (start, 0)).1.1 ≤ 0 + most_calls chia_ca
reconcile_of-le_example = reconcile_of-le client schedule req chia_ca (start, 0)
