-- ===== src/Api/Node.antt =====
-- api/v1/chianode_types.go
use chia_opera.Base.{ℤ, String, Bool, Option, List, StringMap}
use chia_opera.Kube.{Kube}
use chia_opera.Api.Common.{
  ResourceMeta, ListMeta, ChiaExporterConfigSpec, AdditionalMetadata, StorageConfig,
}

pub record ChiaNodeConfigSpec (K : Kube) : Type 0 where
  pub ca_secret_name : String
  pub testnet : Option Bool
  pub log_level : Option String
  pub timezone : Option String
  pub image : String
  pub liveness_probe : Option K.Probe
  pub readiness_probe : Option K.Probe
  pub startup_probe : Option K.Probe
  pub resources : Option K.ResourceRequirements
  pub security_context : Option K.SecurityContext

pub record ChiaNodeSpec (K : Kube) : Type 0 where
  pub additional_metadata : AdditionalMetadata
  pub chia_config : ChiaNodeConfigSpec K
  pub chia_exporter_config : ChiaExporterConfigSpec
  pub storage : Option StorageConfig
  pub service_type : String
  pub image_pull_policy : Option String
  pub replicas : Option ℤ
  pub node_selector : StringMap
  pub pod_security_context : Option K.PodSecurityContext

pub record ChiaNodeStatus : Type 0 where
  pub ready : Bool

pub record ChiaNode (K : Kube) : Type 0 where
  pub meta : ResourceMeta
  pub spec : ChiaNodeSpec K
  pub status : ChiaNodeStatus

pub record ChiaNodeList (K : Kube) : Type 0 where
  pub meta : ListMeta
  pub items : List (ChiaNode K)
