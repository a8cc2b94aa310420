-- ===== src/DeepCopy.antt =====
-- api/v1/zz_generated.deepcopy.go: the memory that the copies are made in, and the types of api/v1 as
-- they lie in it. A pointer, a map and a slice are the address of a cell, or nil.
pub mod Memory
pub mod Shapes
pub mod Refs
pub mod Items
pub mod Library
pub mod Parts
pub mod Node
pub mod Farmer
pub mod Wallet
pub mod Harvester
pub mod Ca
pub mod Objects
pub mod Apart
use chia_opera.Base.{ℕ, Bool, String, Option, List, StringMap, ℤ}
use chia_opera.Kube.{Kube}
use chia_opera.Api.Common.{
  ResourceMeta, ListMeta, ChiaKeysSpec, PersistentVolumeClaimConfig, HostPathVolumeConfig,
}
use chia_opera.Api.Node.{ChiaNodeStatus}
use chia_opera.Api.Farmer.{ChiaFarmerStatus}
use chia_opera.Api.Wallet.{ChiaWalletStatus}
use chia_opera.Api.Harvester.{ChiaHarvesterStatus}
use chia_opera.Api.Ca.{ChiaCaSpec, ChiaCaStatus}

-- The address behind a pointer, a map or a slice.
abbrev pub Ref : Type 0
Ref = Option ℕ

pub record AdditionalMetadataCell : Type 0 where
  pub labels : Ref
  pub annotations : Ref

pub record ChiaExporterConfigSpecCell : Type 0 where
  pub image : String
  pub service_labels : Ref

pub record ChiaRootConfigCell : Type 0 where
  pub persistent_volume_claim : Ref
  pub host_path_volume : Ref

pub record PlotsConfigCell : Type 0 where
  pub persistent_volume_claim : Ref
  pub host_path_volume : Ref

pub record StorageConfigCell : Type 0 where
  pub chia_root : Ref
  pub plots : Ref

pub record ChiaNodeConfigSpecCell : Type 0 where
  pub ca_secret_name : String
  pub testnet : Ref
  pub log_level : Ref
  pub timezone : Ref
  pub image : String
  pub liveness_probe : Ref
  pub readiness_probe : Ref
  pub startup_probe : Ref
  pub resources : Ref
  pub security_context : Ref

pub record ChiaNodeSpecCell : Type 0 where
  pub additional_metadata : AdditionalMetadataCell
  pub chia_config : ChiaNodeConfigSpecCell
  pub chia_exporter_config : ChiaExporterConfigSpecCell
  pub storage : Ref
  pub service_type : String
  pub image_pull_policy : Ref
  pub replicas : Ref
  pub node_selector : Ref
  pub pod_security_context : Ref

pub record ChiaNodeCell : Type 0 where
  pub meta : ResourceMeta
  pub spec : ChiaNodeSpecCell
  pub status : ChiaNodeStatus

pub record ChiaFarmerConfigSpecCell : Type 0 where
  pub ca_secret_name : String
  pub secret_key_spec : ChiaKeysSpec
  pub full_node_peer : String
  pub testnet : Ref
  pub log_level : Ref
  pub timezone : Ref
  pub image : String
  pub liveness_probe : Ref
  pub readiness_probe : Ref
  pub startup_probe : Ref
  pub resources : Ref
  pub security_context : Ref

pub record ChiaFarmerSpecCell : Type 0 where
  pub additional_metadata : AdditionalMetadataCell
  pub chia_config : ChiaFarmerConfigSpecCell
  pub chia_exporter_config : ChiaExporterConfigSpecCell
  pub storage : Ref
  pub service_type : String
  pub image_pull_policy : Ref
  pub node_selector : Ref
  pub pod_security_context : Ref

pub record ChiaFarmerCell : Type 0 where
  pub meta : ResourceMeta
  pub spec : ChiaFarmerSpecCell
  pub status : ChiaFarmerStatus

pub record ChiaWalletConfigSpecCell : Type 0 where
  pub ca_secret_name : String
  pub secret_key_spec : ChiaKeysSpec
  pub full_node_peer : String
  pub testnet : Ref
  pub log_level : Ref
  pub timezone : Ref
  pub image : String
  pub liveness_probe : Ref
  pub readiness_probe : Ref
  pub startup_probe : Ref
  pub resources : Ref
  pub security_context : Ref

pub record ChiaWalletSpecCell : Type 0 where
  pub additional_metadata : AdditionalMetadataCell
  pub chia_config : ChiaWalletConfigSpecCell
  pub chia_exporter_config : ChiaExporterConfigSpecCell
  pub storage : Ref
  pub service_type : String
  pub image_pull_policy : Ref
  pub node_selector : Ref
  pub pod_security_context : Ref

pub record ChiaWalletCell : Type 0 where
  pub meta : ResourceMeta
  pub spec : ChiaWalletSpecCell
  pub status : ChiaWalletStatus

pub record ChiaHarvesterConfigSpecCell : Type 0 where
  pub ca_secret_name : String
  pub farmer_address : String
  pub testnet : Ref
  pub log_level : Ref
  pub timezone : Ref
  pub image : String
  pub liveness_probe : Ref
  pub readiness_probe : Ref
  pub startup_probe : Ref
  pub resources : Ref
  pub security_context : Ref

pub record ChiaHarvesterSpecCell : Type 0 where
  pub additional_metadata : AdditionalMetadataCell
  pub chia_config : ChiaHarvesterConfigSpecCell
  pub chia_exporter_config : ChiaExporterConfigSpecCell
  pub storage : Ref
  pub service_type : String
  pub image_pull_policy : Ref
  pub node_selector : Ref
  pub pod_security_context : Ref

pub record ChiaHarvesterCell : Type 0 where
  pub meta : ResourceMeta
  pub spec : ChiaHarvesterSpecCell
  pub status : ChiaHarvesterStatus

pub record ChiaCaCell : Type 0 where
  pub meta : ResourceMeta
  pub spec : ChiaCaSpec
  pub status : ChiaCaStatus

-- A list type, of any kind of resource: its meta data and the address of its items.
pub record ListCell : Type 0 where
  pub meta : ListMeta
  pub items : Ref

-- What a cell is made for.
pub data CellType : Type 0 where
  bools strings ints maps : CellType
  probes requirements security_contexts pod_security_contexts : CellType
  claims host_paths claim_slices host_path_slices chia_roots plot_configs storages : CellType
  metadata exporters keys : CellType
  node_configs node_specs node_statuses nodes node_slices node_lists : CellType
  farmer_configs farmer_specs farmer_statuses farmers farmer_slices farmer_lists : CellType
  wallet_configs wallet_specs wallet_statuses wallets wallet_slices wallet_lists : CellType
  harvester_configs harvester_specs harvester_statuses harvesters harvester_slices harvester_lists :
      CellType
  ca_specs ca_statuses cas ca_slices ca_lists : CellType

-- What a cell holds.
abbrev pub Content : Kube → CellType → Type 0
Content K bools = Bool
Content K strings = String
Content K ints = ℤ
Content K maps = StringMap
Content K probes = K.Probe
Content K requirements = K.ResourceRequirements
Content K security_contexts = K.SecurityContext
Content K pod_security_contexts = K.PodSecurityContext
Content K claims = PersistentVolumeClaimConfig
Content K host_paths = HostPathVolumeConfig
Content K claim_slices = List Ref
Content K host_path_slices = List Ref
Content K chia_roots = ChiaRootConfigCell
Content K plot_configs = PlotsConfigCell
Content K storages = StorageConfigCell
Content K metadata = AdditionalMetadataCell
Content K exporters = ChiaExporterConfigSpecCell
Content K keys = ChiaKeysSpec
Content K node_configs = ChiaNodeConfigSpecCell
Content K node_specs = ChiaNodeSpecCell
Content K node_statuses = ChiaNodeStatus
Content K nodes = ChiaNodeCell
Content K node_slices = List ChiaNodeCell
Content K node_lists = ListCell
Content K farmer_configs = ChiaFarmerConfigSpecCell
Content K farmer_specs = ChiaFarmerSpecCell
Content K farmer_statuses = ChiaFarmerStatus
Content K farmers = ChiaFarmerCell
Content K farmer_slices = List ChiaFarmerCell
Content K farmer_lists = ListCell
Content K wallet_configs = ChiaWalletConfigSpecCell
Content K wallet_specs = ChiaWalletSpecCell
Content K wallet_statuses = ChiaWalletStatus
Content K wallets = ChiaWalletCell
Content K wallet_slices = List ChiaWalletCell
Content K wallet_lists = ListCell
Content K harvester_configs = ChiaHarvesterConfigSpecCell
Content K harvester_specs = ChiaHarvesterSpecCell
Content K harvester_statuses = ChiaHarvesterStatus
Content K harvesters = ChiaHarvesterCell
Content K harvester_slices = List ChiaHarvesterCell
Content K harvester_lists = ListCell
Content K ca_specs = ChiaCaSpec
Content K ca_statuses = ChiaCaStatus
Content K cas = ChiaCaCell
Content K ca_slices = List ChiaCaCell
Content K ca_lists = ListCell
