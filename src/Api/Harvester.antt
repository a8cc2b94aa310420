-- ===== src/Api/Harvester.antt =====
-- api/v1/chiaharvester_types.go
use chia_opera.Base.{String, Bool, Option, List, StringMap}
use chia_opera.Kube.{Kube}
use chia_opera.Api.Common.{
  ResourceMeta, ListMeta, ChiaExporterConfigSpec, AdditionalMetadata, StorageConfig,
}

pub record ChiaHarvesterConfigSpec (K : Kube) : Type 0 where
  pub ca_secret_name : String
  pub farmer_address : String
  pub testnet : Option Bool
  pub log_level : Option String
  pub timezone : Option String
  pub image : String
  pub liveness_probe : Option K.Probe
  pub readiness_probe : Option K.Probe
  pub startup_probe : Option K.Probe
  pub resources : Option K.ResourceRequirements
  pub security_context : Option K.SecurityContext

pub record ChiaHarvesterSpec (K : Kube) : Type 0 where
  pub additional_metadata : AdditionalMetadata
  pub chia_config : ChiaHarvesterConfigSpec K
  pub chia_exporter_config : ChiaExporterConfigSpec
  pub storage : Option StorageConfig
  pub service_type : String
  pub image_pull_policy : Option String
  pub node_selector : StringMap
  pub pod_security_context : Option K.PodSecurityContext

pub record ChiaHarvesterStatus : Type 0 where
  pub ready : Bool

pub record ChiaHarvester (K : Kube) : Type 0 where
  pub meta : ResourceMeta
  pub spec : ChiaHarvesterSpec K
  pub status : ChiaHarvesterStatus

pub record ChiaHarvesterList (K : Kube) : Type 0 where
  pub meta : ListMeta
  pub items : List (ChiaHarvester K)
