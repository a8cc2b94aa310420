-- ===== src/Manager.antt =====
-- cmd/main.go, `SetupWithManager` of the five controllers, and the registration of the types of
-- api/v1 with the scheme: what the process does up to the manager's start. The manager, the scheme
-- and the flags are the libraries', and a parameter.
pub mod Laws
pub mod Stages
pub mod Serves
pub mod Started
use chia_opera.Base.{String, Bool, false, ℕ, Option, none, some, List, [], ◌∷◌, must_failed}
use chia_opera.Exec.{Exec, Signal, next, returns, panics, Outcome, run, pure, ◌>>=◌, ◌>>◌}
use chia_opera.Client.{ResourceKind, chia_node, chia_farmer, chia_wallet, chia_harvester, chia_ca}

-- A type of api/v1 that is registered: that of a kind of resource, or that of the lists of a kind.
pub data RegisteredType : Type 0 where
  object_type list_type : ResourceKind → RegisteredType

-- The fields of ctrl.Options that `main` sets.
pub record ManagerOptions : Type 0 where
  pub metrics_bind_address : String
  pub health_probe_bind_address : String
  pub leader_election : Bool
  pub leader_election_id : String

-- What the libraries do. A signal of a number is an exit of the process with that code.
pub record Platform : Type 1 where
  pub State : Type 0
  pub Error : Type 0
  -- SchemeBuilder.Register
  pub register : List RegisteredType → State → State
  -- clientgoscheme.AddToScheme, k8schianetv1.AddToScheme
  pub add_client_go : State → Option Error × State
  pub add_to_scheme : State → Option Error × State
  -- flag.StringVar, flag.BoolVar, BindFlags of the options of zap, flag.Parse
  pub string_var : String → String → State → State
  pub bool_var : String → Bool → State → State
  pub bind_log_flags : State → State
  pub parse_flags : State → Signal ℕ Unit × State
  -- what a flag's variable holds
  pub string_value : String → State → String
  pub bool_value : String → State → Bool
  pub set_logger : State → State
  -- ctrl.GetConfigOrDie, ctrl.NewManager
  pub get_config_or_die : State → Signal ℕ Unit × State
  pub new_manager : ManagerOptions → State → Option Error × State
  -- ctrl.NewControllerManagedBy(mgr).For(an object of the kind).Complete(the reconciler of a kind)
  pub complete : ResourceKind → ResourceKind → State → Option Error × State
  pub add_healthz_check : String → State → Option Error × State
  pub add_readyz_check : String → State → Option Error × State
  -- Start of the manager, which returns when the process is told to stop
  pub start : State → Option Error × State
  pub log_info : String → State → State
  pub log_error : String → List (String × String) → Error → State → State

-- What the `init` function of each file of api/v1 registers.
abbrev pub ca_types : List RegisteredType
ca_types = object_type chia_ca ∷ list_type chia_ca ∷ []

abbrev pub farmer_types : List RegisteredType
farmer_types = object_type chia_farmer ∷ list_type chia_farmer ∷ []

abbrev pub harvester_types : List RegisteredType
harvester_types = object_type chia_harvester ∷ list_type chia_harvester ∷ []

abbrev pub node_types : List RegisteredType
node_types = object_type chia_node ∷ list_type chia_node ∷ []

abbrev pub wallet_types : List RegisteredType
wallet_types = object_type chia_wallet ∷ list_type chia_wallet ∷ []

-- They register with one builder, in the order of the files.
abbrev pub registrations : List (List RegisteredType)
registrations = ca_types ∷ farmer_types ∷ harvester_types ∷ node_types ∷ wallet_types ∷ []

module _ (P : Platform) where
  abbrev pub Process : Type 0 → Type 0
  Process A = Exec P.State ℕ A

  -- A call that returns nothing and does not fail.
  abbrev pub call : (P.State → P.State) → Process Unit
  call f s = (next tt, f s)

  abbrev pub register_all : List (List RegisteredType) → P.State → P.State
  register_all [] s = s
  register_all (types ∷ rest) s = register_all rest (P.register types s)

  -- utilruntime.Must
  abbrev after_must : Option P.Error → Signal ℕ Unit
  after_must none = next tt
  after_must (some e) = panics must_failed

  abbrev pub must : (P.State → Option P.Error × P.State) → Process Unit
  must f s = let (r, t) = f s in (after_must r, t)

  -- if err := f(); err != nil { setupLog.Error(err, message, values); os.Exit(1) }
  abbrev pub after_attempt :
      String → List (String × String) → Option P.Error × P.State → Signal ℕ Unit × P.State
  after_attempt message values (none, t) = (next tt, t)
  after_attempt message values (some e, t) = (returns 1, P.log_error message values e t)

  unfoldable pub attempt :
      String → List (String × String) → (P.State → Option P.Error × P.State) → Process Unit
  attempt message values f s = after_attempt message values (f s)

  -- `SetupWithManager` of the five reconcilers.
  setup_node : P.State → Option P.Error × P.State
  setup_node = P.complete chia_node chia_node

  setup_farmer : P.State → Option P.Error × P.State
  setup_farmer = P.complete chia_farmer chia_farmer

  setup_wallet : P.State → Option P.Error × P.State
  setup_wallet = P.complete chia_wallet chia_wallet

  setup_harvester : P.State → Option P.Error × P.State
  setup_harvester = P.complete chia_harvester chia_harvester

  setup_ca : P.State → Option P.Error × P.State
  setup_ca = P.complete chia_ca chia_ca

  unfoldable pub setup_with_manager : ResourceKind → P.State → Option P.Error × P.State
  unfolding setup_node setup_farmer setup_wallet setup_harvester setup_ca
  setup_with_manager chia_node = setup_node
  setup_with_manager chia_farmer = setup_farmer
  setup_with_manager chia_wallet = setup_wallet
  setup_with_manager chia_harvester = setup_harvester
  setup_with_manager chia_ca = setup_ca

  abbrev set_up : String → ResourceKind → Process Unit
  set_up name k =
      attempt "unable to create controller" (("controller", name) ∷ []) (setup_with_manager k)

  -- The `init` functions of api/v1, then that of cmd.
  unfoldable pub init : Process Unit
  init = do call (register_all registrations); must P.add_client_go; must P.add_to_scheme

  abbrev pub options : P.State → ManagerOptions
  options s = record {
    metrics_bind_address = P.string_value "metrics-bind-address" s;
    health_probe_bind_address = P.string_value "health-probe-bind-address" s;
    leader_election = P.bool_value "leader-elect" s;
    leader_election_id = "724bee8b.k8s.chia.net";
  }

  -- Up to the construction of the manager.
  unfoldable pub parse : Process Unit
  parse = do
    call (P.string_var "metrics-bind-address" ":8080")
    call (P.string_var "health-probe-bind-address" ":8081")
    call (P.bool_var "leader-elect" false)
    call P.bind_log_flags
    P.parse_flags
    call P.set_logger
    P.get_config_or_die

  -- From the construction of the manager on.
  unfoldable pub manage : Process ℕ
  unfolding setup_with_manager attempt
  manage = do
    attempt "unable to start manager" [] (λ s. P.new_manager (options s) s)
    set_up "ChiaNode" chia_node
    set_up "ChiaFarmer" chia_farmer
    set_up "ChiaHarvester" chia_harvester
    set_up "ChiaCA" chia_ca
    set_up "ChiaWallet" chia_wallet
    attempt "unable to set up health check" [] (P.add_healthz_check "healthz")
    attempt "unable to set up ready check" [] (P.add_readyz_check "readyz")
    call (P.log_info "starting manager")
    attempt "problem running manager" [] P.start
    pure 0

  -- The process, from its initialisation to its exit code.
  unfoldable pub main : P.State → Outcome ℕ × P.State
  unfolding init parse manage
  main = run (init >> (parse >> manage))
