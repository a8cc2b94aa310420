-- ===== src/Api/Common.antt =====
-- api/v1/chiacommon_types.go. A pointer or an optional field is an `Option`, and a map is the
-- entries that it holds.
use chia_opera.Base.{String, Option, List, StringMap}

-- The fields of `metav1.TypeMeta` and `metav1.ObjectMeta`, which every resource embeds, that the
-- controllers read.
pub record ResourceMeta : Type 0 where
  pub api_version : String
  pub kind : String
  pub name : String
  pub namespace : String
  pub uid : String

-- metav1.ListMeta, cut to one field; nothing reads it.
pub record ListMeta : Type 0 where
  pub resource_version : String

pub record ChiaExporterConfigSpec : Type 0 where
  pub image : String
  pub service_labels : StringMap

pub record ChiaKeysSpec : Type 0 where
  pub name : String
  pub key : String

pub record AdditionalMetadata : Type 0 where
  pub labels : StringMap
  pub annotations : StringMap

pub record PersistentVolumeClaimConfig : Type 0 where
  pub claim_name : String
  pub storage_class : String
  pub resource_request : String

pub record HostPathVolumeConfig : Type 0 where
  pub path : String

pub record ChiaRootConfig : Type 0 where
  pub persistent_volume_claim : Option PersistentVolumeClaimConfig
  pub host_path_volume : Option HostPathVolumeConfig

-- The slices hold pointers, which may be nil.
pub record PlotsConfig : Type 0 where
  pub persistent_volume_claim : List (Option PersistentVolumeClaimConfig)
  pub host_path_volume : List (Option HostPathVolumeConfig)

pub record StorageConfig : Type 0 where
  pub chia_root : Option ChiaRootConfig
  pub plots : Option PlotsConfig
