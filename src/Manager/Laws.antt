-- ===== src/Manager/Laws.antt =====
-- What the libraries that the process is built on document, as far as its start relies on it.
use chia_opera.Base.{ℕ, String, Bool, Option, none, List, ◌≡◌, Memᴰ}
use chia_opera.Exec.{Signal, next}
use chia_opera.Client.{ResourceKind}
use chia_opera.Manager.{Platform, RegisteredType, object_type, ManagerOptions}

module _ (P : Platform) where
  -- What the process does after its initialisation and before it starts the manager.
  pub data ProcessStep : P.State → P.State → Type 0 where
    defines_string :
        {s : P.State} (name default : String) → ProcessStep s (P.string_var name default s)
    defines_bool :
        {s : P.State} (name : String) (default : Bool) → ProcessStep s (P.bool_var name default s)
    binds_log_flags : {s : P.State} → ProcessStep s (P.bind_log_flags s)
    parses : {s t : P.State} {r : Signal ℕ Unit} → P.parse_flags s ≡ (r, t) → ProcessStep s t
    sets_logger : {s : P.State} → ProcessStep s (P.set_logger s)
    configures :
        {s t : P.State} {r : Signal ℕ Unit} → P.get_config_or_die s ≡ (r, t) → ProcessStep s t
    makes_manager :
        {s t : P.State} (o : ManagerOptions) {r : Option P.Error}
        → P.new_manager o s ≡ (r, t)
        → ProcessStep s t
    completes :
        {s t : P.State} (k reconciler : ResourceKind) {r : Option P.Error}
        → P.complete k reconciler s ≡ (r, t)
        → ProcessStep s t
    adds_healthz :
        {s t : P.State} (name : String) {r : Option P.Error}
        → P.add_healthz_check name s ≡ (r, t)
        → ProcessStep s t
    adds_readyz :
        {s t : P.State} (name : String) {r : Option P.Error}
        → P.add_readyz_check name s ≡ (r, t)
        → ProcessStep s t
    logs : {s : P.State} (message : String) → ProcessStep s (P.log_info message s)

-- `IsListed`: the type is in the scheme's builder. `InScheme`: it is in the scheme. `Routes k r`: the
-- manager has the reconciler of `r` for the objects of kind `k`.
pub record IsLawfulPlatform (P : Platform) : Type 1 where
  pub IsListed : RegisteredType → P.State → Type 0
  pub InScheme : RegisteredType → P.State → Type 0
  pub Routes : ResourceKind → ResourceKind → P.State → Type 0
  pub listed :
      (types : List RegisteredType) (x : RegisteredType) (s : P.State)
      → Memᴰ x types
      → IsListed x (P.register types s)
  pub listed_by_register :
      (types : List RegisteredType) (x : RegisteredType) (s : P.State)
      → IsListed x s
      → IsListed x (P.register types s)
  pub listed_by_client_go :
      (x : RegisteredType) (s : P.State) → IsListed x s → IsListed x (P.add_client_go s).1
  pub added :
      (x : RegisteredType) (s t : P.State)
      → P.add_to_scheme s ≡ (none, t)
      → IsListed x s
      → InScheme x t
  pub in_scheme :
      (x : RegisteredType) (s t : P.State) → ProcessStep P s t → InScheme x s → InScheme x t
  pub completed : (k r : ResourceKind) (s t : P.State) → P.complete k r s ≡ (none, t) → Routes k r t
  pub routes :
      (k r : ResourceKind) (s t : P.State) → ProcessStep P s t → Routes k r s → Routes k r t

-- No call fails, but for `Complete` on a kind that the scheme does not have.
pub record IsHealthyPlatform {P : Platform} (L : IsLawfulPlatform P) : Type 0 where
  pub client_go_added : (s : P.State) → (P.add_client_go s).0 ≡ none
  pub scheme_added : (s : P.State) → (P.add_to_scheme s).0 ≡ none
  pub flags_parsed : (s : P.State) → (P.parse_flags s).0 ≡ next tt
  pub configured : (s : P.State) → (P.get_config_or_die s).0 ≡ next tt
  pub manager_made : (o : ManagerOptions) (s : P.State) → (P.new_manager o s).0 ≡ none
  pub completes_known :
      (k r : ResourceKind) (s : P.State)
      → L.InScheme (object_type k) s
      → (P.complete k r s).0 ≡ none
  pub healthz_added : (name : String) (s : P.State) → (P.add_healthz_check name s).0 ≡ none
  pub readyz_added : (name : String) (s : P.State) → (P.add_readyz_check name s).0 ≡ none
