-- ===== src/Tests/Generates.antt =====
-- Calls of `Reconcile` for the sample ChiaCA, whose secret is there after two pauses.
use chia_opera.Base.{ℕ, zero, suc, ◌<◌, true, false, none, some, ◌≡◌, refl, arith}
use chia_opera.Exec.{returned, run}
use chia_opera.Client.{
  Client, NamespacedName, ResourceKind, chia_node, chia_farmer, chia_wallet, chia_harvester,
  chia_ca, Resource, found, ensure, update_ready,
}
use chia_opera.Ca.Reconcile.{get_ca_secret, wait_for_secret, generate, reconcile}
use chia_opera.Ca.Wait.{IsAbsentFor, after_rounds, wait_for_secret_absent}
use chia_opera.Ca.Generate.{Follows, ca-Follows, Answers, generate-Answers}
use chia_opera.System.CaReady.{GeneratorWorks}
use chia_opera.Plan.Holds.{IsLawful}
use chia_opera.System.Acts.{KeepsByReading, done, step, updates}
use chia_opera.System.Stays.{act}
use chia_opera.System.CaSettled.{second_ca_call}
use chia_opera.Tests.Data.{sample, node, farmer, wallet, harvester, ca}
use chia_opera.Tests.Memory.{
  Cluster, memory, memory-IsLawful, memory-IsHealthy, memory-KeepsByReading,
  memory-WritesOnlyChanges,
}

abbrev resources : (k : ResourceKind) → Resource sample k
resources chia_node = node none
resources chia_farmer = farmer none
resources chia_wallet = wallet none
resources chia_harvester = harvester none
resources chia_ca = ca

abbrev client : Client sample
client = memory sample resources 2

abbrev req : NamespacedName
req = record { namespace = "farm"; name = "my" }

abbrev start : Cluster sample
start = record { objects = λ k. none; written = none; pauses = 0 }

ca-Follows_example : Follows client req (found ca) start (reconcile client req start)
ca-Follows_example = ca-Follows client req start start (found ca) refl

generate-Answers_example :
    Answers client req ca (true, none) start (run (generate client req ca) start)
unfolding get_ca_secret
generate-Answers_example = generate-Answers client req ca start start (true, none) refl

wait_for_secret_absent_example :
    run (wait_for_secret client 2 ca) start ≡ (returned (tt, none), record start { pauses = 2 })
unfolding get_ca_secret
wait_for_secret_absent_example = wait_for_secret_absent client ca 2 start (refl, (refl, tt))

-- The secret is there after one pause.
abbrev quick : Client sample
quick = memory sample resources 1

quick_generator : GeneratorWorks (memory-IsLawful sample resources 1) ca
unfolding get_ca_secret
quick_generator u h = waits u.pauses refl
  where
    waits :
        (p : ℕ)
        → u.pauses ≡ p
        → (n : ℕ) × (n < 100)
          × IsAbsentFor quick ca n u
          × ((get_ca_secret quick ca (after_rounds quick ca n u)).0 ≡ (false, none))
    waits zero e = (1, omega arith, (rw e refl, tt), rw e refl)
    waits (suc p) e = (0, omega arith, tt, ground (arith, e))

-- A wallet's status is written between the two calls.
second_ca_call_example :
    reconcile quick req
      (record ((reconcile quick req start).1) { written = some (chia_wallet, wallet none) })
    ≡ (
      returned (tt, none),
      record ((reconcile quick req start).1) { written = some (chia_wallet, wallet none) },
    )
unfolding get_ca_secret reconcile ensure generate wait_for_secret update_ready
second_ca_call_example =
    let between : Cluster sample = record ((reconcile quick req start).1) {
      written = some (chia_wallet, wallet none);
    } in
    second_ca_call (memory-IsLawful sample resources 1) (memory-KeepsByReading sample resources 1)
      (memory-IsHealthy sample resources 1) (memory-WritesOnlyChanges sample resources 1) req ca ca
      start start between between quick_generator refl
      (step (act chia_wallet req (λ e. cc e) (updates (wallet none) refl)) done) refl refl refl refl

-- The others write the status of a wallet.
abbrev schedule : ℕ → Cluster sample → Cluster sample
schedule n s = record s { written = some (chia_wallet, wallet none) }

abbrev law : IsLawful quick
law = memory-IsLawful sample resources 1

abbrev reads : KeepsByReading law
reads = memory-KeepsByReading sample resources 1
