-- ===== src/Harvester.antt =====
-- internal/controller/chiaharvester_controller.go: the objects that are assembled for a ChiaHarvester.
pub mod Plots
pub mod Mounted
pub mod Peer
pub mod Pod
pub mod Reconcile
pub mod Owned
use chia_opera.Base.{
  ℕ, String, ◌<>◌, true, false, Option, none, some, List, [], ◌∷◌, ◌++◌, map, StringMap, Eval,
  value, bind_eval, itoa, numbered,
}
use chia_opera.Kube.{
  Kube, OwnerReference, ObjectMeta, Service, EnvVar, Container, VolumeMount, Volume, secret,
  host_path, persistent_volume_claim, PodTemplateSpec, Deployment,
}
use chia_opera.Api.Common.{StorageConfig, PersistentVolumeClaimConfig, HostPathVolumeConfig}
use chia_opera.Farmer.{farmer_port}
use chia_opera.Api.Harvester.{ChiaHarvester}
use chia_opera.Common.{
  service_ports, metrics_ports, container_ports, component_labels, owner_reference, or_zero,
  exporter_image, env_if_set, env_testnet, chia_root_volume, get_chia_exporter_container,
}

abbrev pub harvester_port : ℕ
harvester_port = 8448

abbrev pub harvester_rpc_port : ℕ
harvester_rpc_port = 8560

-- storage.Plots.PersistentVolumeClaim, empty where a pointer on the way is nil
abbrev pub plot_claims : Option StorageConfig → List (Option PersistentVolumeClaimConfig)
plot_claims none = []
plot_claims (some storage) = elim storage.plots [
  | none ↦ []
  | some plots ↦ plots.persistent_volume_claim
]

-- storage.Plots.HostPathVolume, empty where a pointer on the way is nil
abbrev pub plot_host_paths : Option StorageConfig → List (Option HostPathVolumeConfig)
plot_host_paths none = []
plot_host_paths (some storage) = elim storage.plots [
  | none ↦ []
  | some plots ↦ plots.host_path_volume
]

-- The bodies of the four loops over plots, at a number and the value of a pointer.
unfoldable pub pvc_plot_volume : ℕ × PersistentVolumeClaimConfig → Volume
pvc_plot_volume (i, vol) = record {
  name = "pvc-plots-" <> itoa i;
  source = persistent_volume_claim vol.claim_name;
}

unfoldable pub host_path_plot_volume : ℕ × HostPathVolumeConfig → Volume
host_path_plot_volume (i, vol) = record {
  name = "hostpath-plots-" <> itoa i;
  source = host_path vol.path;
}

unfoldable pub pvc_plot_mount : ℕ × PersistentVolumeClaimConfig → VolumeMount
pvc_plot_mount (i, vol) = record {
  name = "pvc-plots-" <> itoa i;
  read_only = true;
  mount_path = "/plots/pvc-plots-" <> itoa i;
}

unfoldable pub host_path_plot_mount : ℕ × HostPathVolumeConfig → VolumeMount
host_path_plot_mount (i, vol) = record {
  name = "hostpath-plots-" <> itoa i;
  read_only = true;
  mount_path = "/plots/hostpath-plots-" <> itoa i;
}

module _ (K : Kube) where
  unfoldable pub get_common_labels : ChiaHarvester K → List StringMap → StringMap
  unfolding component_labels
  get_common_labels harvester additional =
      component_labels "ChiaHarvester-owner" harvester.meta.name additional

  unfoldable pub get_owner_reference : ChiaHarvester K → List OwnerReference
  unfolding owner_reference
  get_owner_reference harvester = owner_reference harvester.meta

  -- The `ObjectMeta` that the literals of this file share, at a name and added labels.
  unfoldable pub object_meta : ChiaHarvester K → String → List StringMap → ObjectMeta
  unfolding get_owner_reference
  object_meta harvester suffix additional = record {
    name = harvester.meta.name <> suffix;
    namespace = harvester.meta.namespace;
    labels = get_common_labels harvester additional;
    annotations = harvester.spec.additional_metadata.annotations;
    owner_references = get_owner_reference harvester;
  }

  unfoldable pub assemble_base_service : ChiaHarvester K → Service
  unfolding object_meta service_ports
  assemble_base_service harvester = record {
    meta = object_meta harvester "-harvester" (harvester.spec.additional_metadata.labels ∷ []);
    service_type = harvester.spec.service_type;
    cluster_ip = "";
    internal_traffic_policy = none;
    ports = service_ports harvester_port harvester_rpc_port;
    selector = get_common_labels harvester (harvester.spec.additional_metadata.labels ∷ []);
  }

  unfoldable pub assemble_chia_exporter_service : ChiaHarvester K → Service
  unfolding object_meta metrics_ports
  assemble_chia_exporter_service harvester = record {
    meta = object_meta harvester "-harvester-metrics" (
        harvester.spec.additional_metadata.labels
        ∷ harvester.spec.chia_exporter_config.service_labels ∷ []);
    service_type = "ClusterIP";
    cluster_ip = "";
    internal_traffic_policy = none;
    ports = metrics_ports;
    selector = get_common_labels harvester (harvester.spec.additional_metadata.labels ∷ []);
  }

  unfoldable pub get_chia_volumes : ChiaHarvester K → Eval (List Volume)
  unfolding pvc_plot_volume host_path_plot_volume
  get_chia_volumes harvester = bind_eval (chia_root_volume harvester.spec.storage) λ root. value (
      record { name = "secret-ca"; source = secret harvester.spec.chia_config.ca_secret_name }
      ∷ root
      ∷ (map pvc_plot_volume (numbered 0 (plot_claims harvester.spec.storage))
          ++ map host_path_plot_volume (numbered 0 (plot_host_paths harvester.spec.storage))))

  unfoldable pub get_chia_volume_mounts : ChiaHarvester K → List VolumeMount
  unfolding pvc_plot_mount host_path_plot_mount
  get_chia_volume_mounts harvester =
      record { name = "secret-ca"; read_only = false; mount_path = "/chia-ca" }
      ∷ record { name = "chiaroot"; read_only = false; mount_path = "/chia-data" }
      ∷ (map pvc_plot_mount (numbered 0 (plot_claims harvester.spec.storage))
          ++ map host_path_plot_mount (numbered 0 (plot_host_paths harvester.spec.storage)))

  unfoldable pub get_chia_env : ChiaHarvester K → List EnvVar
  get_chia_env harvester =
      record { name = "service"; value = "harvester" }
      ∷ record { name = "CHIA_ROOT"; value = "/chia-data" }
      ∷ record { name = "ca"; value = "/chia-ca" }
      ∷ env_testnet harvester.spec.chia_config.testnet (
          env_if_set "TZ" harvester.spec.chia_config.timezone (
            env_if_set "log_level" harvester.spec.chia_config.log_level (
              record { name = "recursive_plot_scan"; value = "true" }
              ∷ record {
                name = "farmer_address";
                value = harvester.spec.chia_config.farmer_address;
              }
              ∷ record { name = "farmer_port"; value = itoa farmer_port }
              ∷ [])))

  unfoldable pub chia_container : ChiaHarvester K → Container K
  unfolding get_chia_env get_chia_volume_mounts container_ports
  chia_container harvester = record {
    name = "chia";
    security_context = harvester.spec.chia_config.security_context;
    image = harvester.spec.chia_config.image;
    image_pull_policy = or_zero "" harvester.spec.image_pull_policy;
    env = get_chia_env harvester;
    ports = container_ports harvester_port harvester_rpc_port;
    liveness_probe = harvester.spec.chia_config.liveness_probe;
    readiness_probe = harvester.spec.chia_config.readiness_probe;
    startup_probe = harvester.spec.chia_config.startup_probe;
    resources = or_zero K.no_resources harvester.spec.chia_config.resources;
    volume_mounts = get_chia_volume_mounts harvester;
  }

  -- The exporter's container is appended to the literal's, and takes the chia container's settings.
  unfoldable pub pod_template : ChiaHarvester K → List Volume → PodTemplateSpec K
  unfolding chia_container get_chia_exporter_container
  pod_template harvester volumes = record {
    labels = get_common_labels harvester (harvester.spec.additional_metadata.labels ∷ []);
    annotations = harvester.spec.additional_metadata.annotations;
    spec = record {
      restart_policy = "";
      service_account_name = "";
      image_pull_secrets = [];
      containers =
          (chia_container harvester ∷ [])
          ++ (get_chia_exporter_container K
                (exporter_image harvester.spec.chia_exporter_config.image)
                harvester.spec.chia_config.security_context
                (or_zero "" harvester.spec.image_pull_policy)
                (or_zero K.no_resources harvester.spec.chia_config.resources)
              ∷ []);
      node_selector = harvester.spec.node_selector;
      volumes = volumes;
      security_context = harvester.spec.pod_security_context;
    };
  }

  unfoldable pub assemble_deployment : ChiaHarvester K → Eval (Deployment K)
  unfolding get_chia_volumes pod_template object_meta
  assemble_deployment harvester = bind_eval (get_chia_volumes harvester) λ volumes. value (record {
    meta = object_meta harvester "-harvester" (harvester.spec.additional_metadata.labels ∷ []);
    match_labels = get_common_labels harvester [];
    template = pod_template harvester volumes;
  })
