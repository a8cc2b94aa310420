-- ===== src/Client.antt =====
-- What the controllers call: the Kubernetes client, `ReconcileResource` of the operator-tools
-- library, and the clock. All of it is a parameter, over an unknown state of the cluster that any
-- call may move on, since others act on the cluster too.
use chia_opera.Base.{ℕ, String, ◌<>◌, Bool, Option, none, some, if◌then◌else◌}
use mathlib.Core.Option
use chia_opera.Kube.{Kube, Object}
use chia_opera.Api.Node.{ChiaNode}
use chia_opera.Api.Farmer.{ChiaFarmer}
use chia_opera.Api.Wallet.{ChiaWallet}
use chia_opera.Api.Harvester.{ChiaHarvester}
use chia_opera.Api.Ca.{ChiaCa}
use chia_opera.Common.{or_zero}
use chia_opera.Exec.{Exec, Signal, next, returns}

-- types.NamespacedName
pub record NamespacedName : Type 0 where
  pub namespace : String
  pub name : String

pub data ResourceKind : Type 0 where
  chia_node chia_farmer chia_wallet chia_harvester chia_ca : ResourceKind

abbrev pub Resource : Kube → ResourceKind → Type 0
Resource K chia_node = ChiaNode K
Resource K chia_farmer = ChiaFarmer K
Resource K chia_wallet = ChiaWallet K
Resource K chia_harvester = ChiaHarvester K
Resource K chia_ca = ChiaCa

-- `Get` fills the object that it is given, or returns an error.
pub data Fetched (E A : Type 0) : Type 0 where
  found : A → Fetched E A
  failed : E → Fetched E A

pub record Client (K : Kube) : Type 1 where
  pub State : Type 0
  pub Error : Type 0
  -- reconcile.Result and its zero value
  pub Result : Type 0
  pub zero_result : Result
  -- errors.IsNotFound
  pub is_not_found : Error → Bool
  -- client.IgnoreNotFound, on an error that is not nil
  pub ignore_not_found : Error → Option Error
  -- the texts that the verbs %v and %s print
  pub message : Error → String
  pub show_name : NamespacedName → String
  pub get : (k : ResourceKind) → NamespacedName → State → Fetched Error (Resource K k) × State
  pub get_secret : NamespacedName → State → Option Error × State
  -- ReconcileResource with StatePresent
  pub reconcile_resource : Object K → State → (Option Result × Option Error) × State
  -- Status().Update
  pub update_status : (k : ResourceKind) → Resource K k → State → Option Error × State
  -- time.Sleep, in nanoseconds
  pub sleep : ℕ → State → State

-- An error that a `Reconcile` method returns: a client's, or one of `fmt.Errorf`.
pub data Failure (E : Type 0) : Type 0 where
  client_error : E → Failure E
  errorf : String → Failure E

module _ {K : Kube} (C : Client K) where
  -- (ctrl.Result, error)
  abbrev pub Return : Type 0
  Return = C.Result × Option (Failure C.Error)

  -- The tests of the error of `Get`.
  abbrev pub after_get :
      (k : ResourceKind) → Fetched C.Error (Resource K k) → Signal Return (Resource K k)
  after_get k (found cr) = next cr
  after_get k (failed e) =
      if C.is_not_found e
      then returns (C.zero_result, none)
      else returns (C.zero_result, Option.map client_error (C.ignore_not_found e))

  -- The head of a component's `Reconcile`, up to the object.
  unfoldable pub fetch : (k : ResourceKind) → NamespacedName → Exec C.State Return (Resource K k)
  fetch k req s = let (r, t) = C.get k req s in (after_get k r, t)

  -- res, err = …; if err != nil { if res == nil { res = &Result{} }; return *res, Errorf(text + err) }
  abbrev pub after_reconcile : String → Option C.Result × Option C.Error → Signal Return Unit
  after_reconcile text (res, none) = next tt
  after_reconcile text (res, some e) =
      returns (or_zero C.zero_result res, some (errorf (text <> C.message e)))

  -- A call of `ReconcileResource` and the test of its error. The text is that of the error up to its
  -- last verb.
  unfoldable pub ensure : String → Object K → Exec C.State Return Unit
  ensure text object s = let (r, t) = C.reconcile_resource object s in (after_reconcile text r, t)

  abbrev pub after_update : Option C.Error → Signal Return Return
  after_update none = next (C.zero_result, none)
  after_update (some e) = returns (C.zero_result, some (client_error e))

  -- The end of a component's `Reconcile`: the status update and the last return.
  unfoldable pub update_ready : (k : ResourceKind) → Resource K k → Exec C.State Return Return
  update_ready k cr s = let (r, t) = C.update_status k cr s in (after_update r, t)
