-- ===== src/System/Calls.antt =====
-- Every call of `Reconcile` is a sequence of the client calls that its request allows.
use chia_opera.Base.{◌≡◌, refl, sym, ap, subst}
use chia_opera.Kube.{Kube}
use chia_opera.Api.Ca.{ChiaCa}
use chia_opera.Exec.{Outcome}
use chia_opera.Client.{
  Client, NamespacedName, ResourceKind, Return, Fetched, found, failed, chia_node, chia_farmer,
  chia_wallet, chia_harvester, chia_ca,
}
use chia_opera.Node.Reconcile as NodeReconcile
use chia_opera.Farmer.Reconcile as FarmerReconcile
use chia_opera.Wallet.Reconcile as WalletReconcile
use chia_opera.Harvester.Reconcile as HarvesterReconcile
use chia_opera.Ca.Generate.{Follows, ca-Follows}
use chia_opera.System.{reconcile_of, plan_of}
use chia_opera.System.Acts.{Acts, Steps, done, step, IsAddressed}
use chia_opera.System.Traces.{Trace, Follows-Trace}
use chia_opera.System.CaTraces.{found-Trace}

module _ {K : Kube} (C : Client K) (named : IsAddressed C) (req : NamespacedName) where
  ca_followed :
      (s t : C.State) (r : Fetched C.Error ChiaCa) (end : Outcome (Return C) × C.State)
      → C.get chia_ca req s ≡ (r, t)
      → Follows C req r t end
      → Trace C chia_ca req s end.1
  ca_followed s t (found ca) end e runs =
      step (Acts.gets e) (found-Trace C req ca (named chia_ca req ca s t e) t end runs)
  ca_followed s t (failed err) end e h =
      step (Acts.gets e) (
        subst (Trace C chia_ca req t) (sym (ap (λ (r : Outcome (Return C) × C.State). r.1) h)) done)

  -- Where `Get` gives the resource that it is asked for, every call of a kind's `Reconcile`, however
  -- it ends, is a finite sequence of client calls: `Get` of the requested resource, queries for
  -- secrets, pauses, status updates, and applications of objects that the plan of a resource with the requested kind,
  -- namespace and name has.
  pub reconcile_of-Steps :
      (k : ResourceKind) (s : C.State) → Steps (Acts C k req) s (reconcile_of C k req s).1
  unfolding reconcile_of plan_of
  reconcile_of-Steps chia_node s =
      let (r, t) = C.get chia_node req s in
      Follows-Trace C chia_node req named NodeReconcile.ready s t r _ refl
        (NodeReconcile.node-Follows C req s t r refl)
  reconcile_of-Steps chia_farmer s =
      let (r, t) = C.get chia_farmer req s in
      Follows-Trace C chia_farmer req named FarmerReconcile.ready s t r _ refl
        (FarmerReconcile.farmer-Follows C req s t r refl)
  reconcile_of-Steps chia_wallet s =
      let (r, t) = C.get chia_wallet req s in
      Follows-Trace C chia_wallet req named WalletReconcile.ready s t r _ refl
        (WalletReconcile.wallet-Follows C req s t r refl)
  reconcile_of-Steps chia_harvester s =
      let (r, t) = C.get chia_harvester req s in
      Follows-Trace C chia_harvester req named HarvesterReconcile.ready s t r _ refl
        (HarvesterReconcile.harvester-Follows C req s t r refl)
  reconcile_of-Steps chia_ca s =
      let (r, t) = C.get chia_ca req s in ca_followed s t r _ refl (ca-Follows C req s t r refl)
