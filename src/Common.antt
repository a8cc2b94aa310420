-- ===== src/Common.antt =====
-- internal/controller/common_controller.go, and the pieces that the four component controllers
-- spell out alike: labels, owner references, the optional image and the CHIA_ROOT volume.
pub mod Labels
pub mod Storage
pub mod Ports
pub mod Env
use chia_opera.Base.{
  ℕ, String, ◌<>◌, Bool, true, false, Option, none, some, List, [], ◌∷◌, ◌==◌, if◌then◌else◌,
  StringMap, insert, Eval, value, panic, nil_dereference,
}
use chia_opera.Kube.{
  Kube, HttpProbe, OwnerReference, Container, EnvVar, from_string, ServicePort, ContainerPort,
  VolumeMount, Volume, host_path, persistent_volume_claim, empty_dir,
}
use chia_opera.Api.Common.{
  ResourceMeta, StorageConfig, PersistentVolumeClaimConfig, HostPathVolumeConfig,
}

abbrev pub daemon_port : ℕ
daemon_port = 55400

abbrev pub chia_exporter_port : ℕ
chia_exporter_port = 9914

abbrev pub default_chia_exporter_image : String
default_chia_exporter_image = "ghcr.io/chia-network/chia-exporter:latest"

unfoldable pub get_common_labels : StringMap → StringMap
get_common_labels labels =
    insert "app.kubernetes.io/managed-by" "chia-operator"
      (insert "app.kubernetes.io/name" "chia" labels)

-- for k, v := range addition { labels[k] = v }
unfoldable pub add_all : StringMap → StringMap → StringMap
add_all labels [] = labels
add_all labels ((k, v) ∷ addition) = add_all (insert k v labels) addition

-- for _, addition := range additionalLabels
unfoldable pub merge_labels : StringMap → List StringMap → StringMap
unfolding add_all
merge_labels labels [] = labels
merge_labels labels (addition ∷ additions) = merge_labels (add_all labels addition) additions

-- The method `getCommonLabels` of a component's reconciler, over the key of its owner label.
unfoldable pub component_labels : String → String → List StringMap → StringMap
unfolding merge_labels get_common_labels
component_labels owner name additions =
    get_common_labels
      (insert owner name (insert "app.kubernetes.io/instance" name (merge_labels [] additions)))

-- The method `getOwnerReference` of a component's reconciler.
unfoldable pub owner_reference : ResourceMeta → List OwnerReference
owner_reference meta =
    record {
      api_version = meta.api_version;
      kind = meta.kind;
      name = meta.name;
      uid = meta.uid;
      controller = some true;
    }
    ∷ []

-- The `Ports` of a component's services: the three ports of the chia container …
unfoldable pub service_ports : ℕ → ℕ → List ServicePort
service_ports peers_port rpc_port =
    record {
      port = daemon_port;
      target_port = from_string "daemon";
      protocol = "TCP";
      name = "daemon";
    }
    ∷ record {
      port = peers_port;
      target_port = from_string "peers";
      protocol = "TCP";
      name = "peers";
    }
    ∷ record { port = rpc_port; target_port = from_string "rpc"; protocol = "TCP"; name = "rpc" }
    ∷ []

-- … and the one of the exporter.
unfoldable pub metrics_ports : List ServicePort
metrics_ports =
    record {
      port = chia_exporter_port;
      target_port = from_string "metrics";
      protocol = "TCP";
      name = "metrics";
    }
    ∷ []

-- The `Ports` of a component's chia container.
unfoldable pub container_ports : ℕ → ℕ → List ContainerPort
container_ports peers_port rpc_port =
    record { name = "daemon"; container_port = daemon_port; protocol = "TCP" }
    ∷ record { name = "peers"; container_port = peers_port; protocol = "TCP" }
    ∷ record { name = "rpc"; container_port = rpc_port; protocol = "TCP" }
    ∷ []

-- A pointer's target, or the zero value of its type.
abbrev pub or_zero {ℓ} : {A : Type ℓ} → A → Option A → A
or_zero zero_value none = zero_value
or_zero zero_value (some a) = a

unfoldable pub exporter_image : String → String
exporter_image image = if image == "" then default_chia_exporter_image else image

-- env = append(env, …) under a test for nil
abbrev pub env_if_set : String → Option String → List EnvVar → List EnvVar
env_if_set name none rest = rest
env_if_set name (some v) rest = record { name = name; value = v } ∷ rest

-- testnet != nil && *testnet
abbrev pub is_testnet : Option Bool → Bool
is_testnet none = false
is_testnet (some b) = b

abbrev pub env_testnet : Option Bool → List EnvVar → List EnvVar
env_testnet testnet rest =
    if is_testnet testnet then record { name = "testnet"; value = "true" } ∷ rest else rest

-- The CHIA_ROOT volume of the farmer, the wallet and the harvester. Where both pointers are set the
-- name of the claim is read from the host path; a nil host path is dereferenced.
unfoldable pub chia_root_source :
    Option PersistentVolumeClaimConfig → Option HostPathVolumeConfig → Eval Volume
chia_root_source (some claim) (some host) =
    value (record { name = "chiaroot"; source = persistent_volume_claim host.path })
chia_root_source (some claim) none = panic nil_dereference
chia_root_source none (some host) =
    value (record { name = "chiaroot"; source = host_path host.path })
chia_root_source none none = value (record { name = "chiaroot"; source = empty_dir })

-- storage.ChiaRoot.PersistentVolumeClaim, nil where a pointer on the way is nil
abbrev pub root_claim : Option StorageConfig → Option PersistentVolumeClaimConfig
root_claim none = none
root_claim (some storage) = elim storage.chia_root [
  | none ↦ none
  | some root ↦ root.persistent_volume_claim
]

-- storage.ChiaRoot.HostPathVolume, nil where a pointer on the way is nil
abbrev pub root_host_path : Option StorageConfig → Option HostPathVolumeConfig
root_host_path none = none
root_host_path (some storage) = elim storage.chia_root [
  | none ↦ none
  | some root ↦ root.host_path_volume
]

-- A nil `Storage` or `ChiaRoot` has the outcome of two nil pointers in it: an emptyDir.
unfoldable pub chia_root_volume : Option StorageConfig → Eval Volume
unfolding chia_root_source
chia_root_volume storage = chia_root_source (root_claim storage) (root_host_path storage)

module _ (K : Kube) where
  healthz : ℕ → ℕ → HttpProbe
  healthz failure_threshold period_seconds = record {
    path = "/healthz";
    port = chia_exporter_port;
    failure_threshold = failure_threshold;
    period_seconds = period_seconds;
  }

  unfoldable pub get_chia_exporter_container :
      String → Option K.SecurityContext → String → K.ResourceRequirements → Container K
  unfolding healthz
  get_chia_exporter_container image sec_context pull_policy res_req = record {
    name = "chia-exporter";
    security_context = sec_context;
    image = image;
    image_pull_policy = pull_policy;
    env = record { name = "CHIA_ROOT"; value = "/chia-data" } ∷ [];
    ports = record { name = "metrics"; container_port = chia_exporter_port; protocol = "TCP" } ∷ [];
    liveness_probe = some (K.http_probe (healthz 0 0));
    readiness_probe = some (K.http_probe (healthz 0 0));
    startup_probe = some (K.http_probe (healthz 30 10));
    resources = res_req;
    volume_mounts = record { name = "chiaroot"; read_only = false; mount_path = "/chia-data" } ∷ [];
  }
