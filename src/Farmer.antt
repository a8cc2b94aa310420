-- ===== src/Farmer.antt =====
-- internal/controller/chiafarmer_controller.go: the objects that are assembled for a ChiaFarmer.
pub mod Pod
pub mod Reconcile
pub mod Owned
use chia_opera.Base.{
  ℕ, String, ◌<>◌, false, none, some, List, [], ◌∷◌, ◌++◌, StringMap, Eval, value, bind_eval,
}
use chia_opera.Kube.{
  Kube, OwnerReference, ObjectMeta, Service, EnvVar, Container, VolumeMount, Volume, secret,
  PodTemplateSpec, Deployment,
}
use chia_opera.Api.Farmer.{ChiaFarmer}
use chia_opera.Common.{
  service_ports, metrics_ports, container_ports, component_labels, owner_reference, or_zero,
  exporter_image, env_if_set, env_testnet, chia_root_volume, get_chia_exporter_container,
}

abbrev pub farmer_port : ℕ
farmer_port = 8447

abbrev pub farmer_rpc_port : ℕ
farmer_rpc_port = 8559

module _ (K : Kube) where
  unfoldable pub get_common_labels : ChiaFarmer K → List StringMap → StringMap
  unfolding component_labels
  get_common_labels farmer additional =
      component_labels "chiafarmer-owner" farmer.meta.name additional

  unfoldable pub get_owner_reference : ChiaFarmer K → List OwnerReference
  unfolding owner_reference
  get_owner_reference farmer = owner_reference farmer.meta

  -- The `ObjectMeta` that the literals of this file share, at a name and added labels.
  unfoldable pub object_meta : ChiaFarmer K → String → List StringMap → ObjectMeta
  unfolding get_owner_reference
  object_meta farmer suffix additional = record {
    name = farmer.meta.name <> suffix;
    namespace = farmer.meta.namespace;
    labels = get_common_labels farmer additional;
    annotations = farmer.spec.additional_metadata.annotations;
    owner_references = get_owner_reference farmer;
  }

  unfoldable pub assemble_base_service : ChiaFarmer K → Service
  unfolding object_meta service_ports
  assemble_base_service farmer = record {
    meta = object_meta farmer "-farmer" (farmer.spec.additional_metadata.labels ∷ []);
    service_type = farmer.spec.service_type;
    cluster_ip = "";
    internal_traffic_policy = none;
    ports = service_ports farmer_port farmer_rpc_port;
    selector = get_common_labels farmer (farmer.spec.additional_metadata.labels ∷ []);
  }

  unfoldable pub assemble_chia_exporter_service : ChiaFarmer K → Service
  unfolding object_meta metrics_ports
  assemble_chia_exporter_service farmer = record {
    meta = object_meta farmer "-farmer-metrics" (
        farmer.spec.additional_metadata.labels ∷ farmer.spec.chia_exporter_config.service_labels
        ∷ []);
    service_type = "ClusterIP";
    cluster_ip = "";
    internal_traffic_policy = none;
    ports = metrics_ports;
    selector = get_common_labels farmer (farmer.spec.additional_metadata.labels ∷ []);
  }

  unfoldable pub get_chia_volumes : ChiaFarmer K → Eval (List Volume)
  get_chia_volumes farmer = bind_eval (chia_root_volume farmer.spec.storage) λ root. value (
      record { name = "secret-ca"; source = secret farmer.spec.chia_config.ca_secret_name }
      ∷ record { name = "key"; source = secret farmer.spec.chia_config.secret_key_spec.name }
      ∷ root
      ∷ [])

  unfoldable pub get_chia_env : ChiaFarmer K → List EnvVar
  get_chia_env farmer =
      record { name = "service"; value = "farmer-only" }
      ∷ record { name = "CHIA_ROOT"; value = "/chia-data" }
      ∷ record { name = "ca"; value = "/chia-ca" }
      ∷ env_testnet farmer.spec.chia_config.testnet (
          env_if_set "TZ" farmer.spec.chia_config.timezone (
            env_if_set "log_level" farmer.spec.chia_config.log_level (
              record {
                name = "keys";
                value = "/key/" <> farmer.spec.chia_config.secret_key_spec.key;
              }
              ∷ record { name = "full_node_peer"; value = farmer.spec.chia_config.full_node_peer }
              ∷ [])))

  unfoldable pub chia_container : ChiaFarmer K → Container K
  unfolding get_chia_env container_ports
  chia_container farmer = record {
    name = "chia";
    security_context = farmer.spec.chia_config.security_context;
    image = farmer.spec.chia_config.image;
    image_pull_policy = or_zero "" farmer.spec.image_pull_policy;
    env = get_chia_env farmer;
    ports = container_ports farmer_port farmer_rpc_port;
    liveness_probe = farmer.spec.chia_config.liveness_probe;
    readiness_probe = farmer.spec.chia_config.readiness_probe;
    startup_probe = farmer.spec.chia_config.startup_probe;
    resources = or_zero K.no_resources farmer.spec.chia_config.resources;
    volume_mounts =
        record { name = "secret-ca"; read_only = false; mount_path = "/chia-ca" }
        ∷ record { name = "key"; read_only = false; mount_path = "/key" }
        ∷ record { name = "chiaroot"; read_only = false; mount_path = "/chia-data" }
        ∷ [];
  }

  -- The exporter's container is appended to the literal's, and takes the chia container's settings.
  unfoldable pub pod_template : ChiaFarmer K → List Volume → PodTemplateSpec K
  unfolding chia_container get_chia_exporter_container
  pod_template farmer volumes = record {
    labels = get_common_labels farmer (farmer.spec.additional_metadata.labels ∷ []);
    annotations = farmer.spec.additional_metadata.annotations;
    spec = record {
      restart_policy = "";
      service_account_name = "";
      image_pull_secrets = [];
      containers =
          (chia_container farmer ∷ [])
          ++ (get_chia_exporter_container K (exporter_image farmer.spec.chia_exporter_config.image)
                farmer.spec.chia_config.security_context (or_zero "" farmer.spec.image_pull_policy)
                (or_zero K.no_resources farmer.spec.chia_config.resources)
              ∷ []);
      node_selector = farmer.spec.node_selector;
      volumes = volumes;
      security_context = farmer.spec.pod_security_context;
    };
  }

  unfoldable pub assemble_deployment : ChiaFarmer K → Eval (Deployment K)
  unfolding get_chia_volumes pod_template object_meta
  assemble_deployment farmer = bind_eval (get_chia_volumes farmer) λ volumes. value (record {
    meta = object_meta farmer "-farmer" (farmer.spec.additional_metadata.labels ∷ []);
    match_labels = get_common_labels farmer [];
    template = pod_template farmer volumes;
  })
