-- ===== src/Api/Farmer.antt =====
-- api/v1/chiafarmer_types.go
use chia_opera.Base.{String, Bool, Option, List, StringMap}
use chia_opera.Kube.{Kube}
use chia_opera.Api.Common.{
  ResourceMeta, ListMeta, ChiaExporterConfigSpec, ChiaKeysSpec, AdditionalMetadata, StorageConfig,
}

pub record ChiaFarmerConfigSpec (K : Kube) : Type 0 where
  pub ca_secret_name : String
  pub secret_key_spec : ChiaKeysSpec
  pub full_node_peer : String
  pub testnet : Option Bool
  pub log_level : Option String
  pub timezone : Option String
  pub image : String
  pub liveness_probe : Option K.Probe
  pub readiness_probe : Option K.Probe
  pub startup_probe : Option K.Probe
  pub resources : Option K.ResourceRequirements
  pub security_context : Option K.SecurityContext

pub record ChiaFarmerSpec (K : Kube) : Type 0 where
  pub additional_metadata : AdditionalMetadata
  pub chia_config : ChiaFarmerConfigSpec K
  pub chia_exporter_config : ChiaExporterConfigSpec
  pub storage : Option StorageConfig
  pub service_type : String
  pub image_pull_policy : Option String
  pub node_selector : StringMap
  pub pod_security_context : Option K.PodSecurityContext

pub record ChiaFarmerStatus : Type 0 where
  pub ready : Bool

pub record ChiaFarmer (K : Kube) : Type 0 where
  pub meta : ResourceMeta
  pub spec : ChiaFarmerSpec K
  pub status : ChiaFarmerStatus

pub record ChiaFarmerList (K : Kube) : Type 0 where
  pub meta : ListMeta
  pub items : List (ChiaFarmer K)
