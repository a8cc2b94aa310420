-- ===== src/System/Crashes.antt =====
-- The settings of storage on which the assembly of a workload panics, and what a call of `Reconcile`
-- for a fetched resource that has them ends in.
use chia_opera.Base.{
  ◌≡◌, ◌≢◌, refl, none, [], ◌∷◌, String, Eval, value, panic, Panic, bind_eval, nil_dereference,
  bad_quantity,
}
use chia_opera.Kube.{Kube, Object, deployment, stateful_set}
use chia_opera.Exec.{Exec, Outcome, returned, panicked}
use chia_opera.Client.{
  Client, NamespacedName, ResourceKind, Resource, Return, found, chia_node, chia_farmer,
  chia_wallet, chia_harvester, chia_ca,
}
use chia_opera.Common.{root_claim}
use chia_opera.Common.Storage.{PanicsOn}
use chia_opera.Node.Pod.{IsNoQuantity}
use chia_opera.Plan.{Plan, Runs, ends, applies, fails, aborts}
use chia_opera.Plan.Holds.{IsHealthy, no_error}
use chia_opera.Node
use chia_opera.Farmer
use chia_opera.Wallet
use chia_opera.Harvester
use chia_opera.System.{reconcile_of, plan_of}
use chia_opera.System.Components.{component-Follows}

-- A node has a claim for CHIA_ROOT whose request is no quantity; another component has a claim without
-- a host path.
abbrev pub CrashesOn : (K : Kube) (k : ResourceKind) → Resource K k → Type 0
CrashesOn K chia_node cr = IsNoQuantity K (root_claim cr.spec.storage)
CrashesOn K chia_farmer cr = PanicsOn cr.spec.storage
CrashesOn K chia_wallet cr = PanicsOn cr.spec.storage
CrashesOn K chia_harvester cr = PanicsOn cr.spec.storage
CrashesOn K chia_ca cr = ⊥

abbrev pub crash_of : ResourceKind → Panic
crash_of chia_node = bad_quantity
crash_of _ = nil_dereference

-- The plan comes to a panic, behind objects that are assembled.
module _ {K : Kube} (p : Panic) where
  abbrev EndsIn : Plan K → Type 0
  EndsIn [] = ⊥
  EndsIn ((text, value o) ∷ rest) = EndsIn rest
  EndsIn ((text, panic q) ∷ rest) = q ≡ p

  crash_step :
      {A : Type 0} (text : String) (f : A → Object K) (m : Eval A)
      → m ≡ panic p
      → EndsIn ((text, bind_eval m (λ a. value (f a))) ∷ [])
  crash_step text f m e = rw e refl

  module _ {C : Client K} {end : Exec C.State (Return C) (Return C)} where
    Runs-panicked :
        IsHealthy C
        → {plan : Plan K} {s t : C.State} {out : Outcome (Return C)} → Runs C end plan s out t
        → EndsIn plan
        → out ≡ panicked p
    Runs-panicked H (ends e) c = absurd c
    Runs-panicked H (applies e r) c = Runs-panicked H r c
    Runs-panicked H (fails {object = o} {s = s} e out) c = absurd (no_error H o s _ _ _ e)
    Runs-panicked H (aborts out) c = cc

    Runs-unready :
        {plan : Plan K} {s t : C.State} {out : Outcome (Return C)} {res : C.Result}
        → Runs C end plan s out t
        → EndsIn plan
        → out ≢ returned (res, none)
    Runs-unready (ends e) c h = absurd c
    Runs-unready (applies e r) c h = Runs-unready r c h
    Runs-unready (fails e out) c h = cc
    Runs-unready (aborts out) c h = cc

module _ {K : Kube} (C : Client K) (req : NamespacedName) where
  plan_of-EndsIn :
      (k : ResourceKind) (cr : Resource K k)
      → CrashesOn K k cr
      → EndsIn (crash_of k) (plan_of C k req cr)
  unfolding plan_of Node.Reconcile.plan Farmer.Reconcile.plan Wallet.Reconcile.plan
      Harvester.Reconcile.plan
  plan_of-EndsIn chia_node cr h =
      crash_step bad_quantity (Node.Reconcile.error_text C req "StatefulSet") stateful_set
        (Node.assemble_statefulset K cr) (Node.Pod.node_statefulset-panics K cr h)
  plan_of-EndsIn chia_farmer cr h =
      crash_step nil_dereference (Farmer.Reconcile.error_text C req "Deployment") deployment
        (Farmer.assemble_deployment K cr) (Farmer.Pod.farmer_deployment-panics K cr h)
  plan_of-EndsIn chia_wallet cr h =
      crash_step nil_dereference (Wallet.Reconcile.error_text C req "Deployment") deployment
        (Wallet.assemble_deployment K cr) (Wallet.Pod.wallet_deployment-panics K cr h)
  plan_of-EndsIn chia_harvester cr h =
      crash_step nil_dereference (Harvester.Reconcile.error_text C req "Deployment") deployment
        (Harvester.assemble_deployment K cr) (Harvester.Pod.harvester_deployment-panics K cr h)
  plan_of-EndsIn chia_ca cr h = absurd h

  no_ca : (k : ResourceKind) (cr : Resource K k) → CrashesOn K k cr → k ≢ chia_ca
  no_ca chia_ca cr h e = absurd h
  no_ca chia_node cr h e = cc
  no_ca chia_farmer cr h e = cc
  no_ca chia_wallet cr h e = cc
  no_ca chia_harvester cr h e = cc

  -- Where no client call fails, a call for a fetched farmer, wallet or harvester that has a claim for
  -- CHIA_ROOT and no host path ends in a nil dereference, and one for a node whose claim for CHIA_ROOT
  -- requests no quantity in the panic of `resource.MustParse`.
  pub component_crashes :
      IsHealthy C
      → (k : ResourceKind) (cr : Resource K k) (s t : C.State) → C.get k req s ≡ (found cr, t)
      → CrashesOn K k cr
      → (reconcile_of C k req s).0 ≡ panicked (crash_of k)
  component_crashes H k cr s t e h =
      Runs-panicked (crash_of k) H (component-Follows C req k (no_ca k cr h) s t (found cr) e)
        (plan_of-EndsIn k cr h)

  -- On every client, a call for such a resource never returns without an error.
  pub component_unready :
      (k : ResourceKind) (cr : Resource K k) (s t : C.State) (res : C.Result)
      → C.get k req s ≡ (found cr, t)
      → CrashesOn K k cr
      → (reconcile_of C k req s).0 ≢ returned (res, none)
  component_unready k cr s t res e h =
      Runs-unready (crash_of k) (component-Follows C req k (no_ca k cr h) s t (found cr) e)
        (plan_of-EndsIn k cr h)
