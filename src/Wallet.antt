-- ===== src/Wallet.antt =====
-- internal/controller/chiawallet_controller.go: the objects that are assembled for a ChiaWallet.
pub mod Pod
pub mod Reconcile
pub mod Owned
use chia_opera.Base.{
  ℕ, String, ◌<>◌, false, none, some, List, [], ◌∷◌, ◌++◌, StringMap, Eval, value, bind_eval,
}
use chia_opera.Kube.{
  Kube, OwnerReference, ObjectMeta, Service, EnvVar, Container, VolumeMount, Volume, secret,
  PodTemplateSpec, Deployment,
}
use chia_opera.Api.Wallet.{ChiaWallet}
use chia_opera.Common.{
  service_ports, metrics_ports, container_ports, component_labels, owner_reference, or_zero,
  exporter_image, env_if_set, env_testnet, chia_root_volume, get_chia_exporter_container,
}

abbrev pub wallet_port : ℕ
wallet_port = 8449

abbrev pub wallet_rpc_port : ℕ
wallet_rpc_port = 9256

module _ (K : Kube) where
  unfoldable pub get_common_labels : ChiaWallet K → List StringMap → StringMap
  unfolding component_labels
  get_common_labels wallet additional =
      component_labels "chiawallet-owner" wallet.meta.name additional

  unfoldable pub get_owner_reference : ChiaWallet K → List OwnerReference
  unfolding owner_reference
  get_owner_reference wallet = owner_reference wallet.meta

  -- The `ObjectMeta` that the literals of this file share, at a name and added labels.
  unfoldable pub object_meta : ChiaWallet K → String → List StringMap → ObjectMeta
  unfolding get_owner_reference
  object_meta wallet suffix additional = record {
    name = wallet.meta.name <> suffix;
    namespace = wallet.meta.namespace;
    labels = get_common_labels wallet additional;
    annotations = wallet.spec.additional_metadata.annotations;
    owner_references = get_owner_reference wallet;
  }

  unfoldable pub assemble_base_service : ChiaWallet K → Service
  unfolding object_meta service_ports
  assemble_base_service wallet = record {
    meta = object_meta wallet "-wallet" (wallet.spec.additional_metadata.labels ∷ []);
    service_type = wallet.spec.service_type;
    cluster_ip = "";
    internal_traffic_policy = none;
    ports = service_ports wallet_port wallet_rpc_port;
    selector = get_common_labels wallet (wallet.spec.additional_metadata.labels ∷ []);
  }

  unfoldable pub assemble_chia_exporter_service : ChiaWallet K → Service
  unfolding object_meta metrics_ports
  assemble_chia_exporter_service wallet = record {
    meta = object_meta wallet "-wallet-metrics" (
        wallet.spec.additional_metadata.labels ∷ wallet.spec.chia_exporter_config.service_labels
        ∷ []);
    service_type = "ClusterIP";
    cluster_ip = "";
    internal_traffic_policy = none;
    ports = metrics_ports;
    selector = get_common_labels wallet (wallet.spec.additional_metadata.labels ∷ []);
  }

  unfoldable pub get_chia_volumes : ChiaWallet K → Eval (List Volume)
  get_chia_volumes wallet = bind_eval (chia_root_volume wallet.spec.storage) λ root. value (
      record { name = "secret-ca"; source = secret wallet.spec.chia_config.ca_secret_name }
      ∷ record { name = "key"; source = secret wallet.spec.chia_config.secret_key_spec.name }
      ∷ root
      ∷ [])

  unfoldable pub get_chia_env : ChiaWallet K → List EnvVar
  get_chia_env wallet =
      record { name = "service"; value = "wallet" }
      ∷ record { name = "CHIA_ROOT"; value = "/chia-data" }
      ∷ record { name = "ca"; value = "/chia-ca" }
      ∷ env_testnet wallet.spec.chia_config.testnet (
          env_if_set "TZ" wallet.spec.chia_config.timezone (
            env_if_set "log_level" wallet.spec.chia_config.log_level (
              record {
                name = "keys";
                value = "/key/" <> wallet.spec.chia_config.secret_key_spec.key;
              }
              ∷ record { name = "full_node_peer"; value = wallet.spec.chia_config.full_node_peer }
              ∷ [])))

  unfoldable pub chia_container : ChiaWallet K → Container K
  unfolding get_chia_env container_ports
  chia_container wallet = record {
    name = "chia";
    security_context = wallet.spec.chia_config.security_context;
    image = wallet.spec.chia_config.image;
    image_pull_policy = or_zero "" wallet.spec.image_pull_policy;
    env = get_chia_env wallet;
    ports = container_ports wallet_port wallet_rpc_port;
    liveness_probe = wallet.spec.chia_config.liveness_probe;
    readiness_probe = wallet.spec.chia_config.readiness_probe;
    startup_probe = wallet.spec.chia_config.startup_probe;
    resources = or_zero K.no_resources wallet.spec.chia_config.resources;
    volume_mounts =
        record { name = "secret-ca"; read_only = false; mount_path = "/chia-ca" }
        ∷ record { name = "key"; read_only = false; mount_path = "/key" }
        ∷ record { name = "chiaroot"; read_only = false; mount_path = "/chia-data" }
        ∷ [];
  }

  -- The exporter's container is appended to the literal's, and takes the chia container's settings.
  unfoldable pub pod_template : ChiaWallet K → List Volume → PodTemplateSpec K
  unfolding chia_container get_chia_exporter_container
  pod_template wallet volumes = record {
    labels = get_common_labels wallet (wallet.spec.additional_metadata.labels ∷ []);
    annotations = wallet.spec.additional_metadata.annotations;
    spec = record {
      restart_policy = "";
      service_account_name = "";
      image_pull_secrets = [];
      containers =
          (chia_container wallet ∷ [])
          ++ (get_chia_exporter_container K (exporter_image wallet.spec.chia_exporter_config.image)
                wallet.spec.chia_config.security_context (or_zero "" wallet.spec.image_pull_policy)
                (or_zero K.no_resources wallet.spec.chia_config.resources)
              ∷ []);
      node_selector = wallet.spec.node_selector;
      volumes = volumes;
      security_context = wallet.spec.pod_security_context;
    };
  }

  unfoldable pub assemble_deployment : ChiaWallet K → Eval (Deployment K)
  unfolding get_chia_volumes pod_template object_meta
  assemble_deployment wallet = bind_eval (get_chia_volumes wallet) λ volumes. value (record {
    meta = object_meta wallet "-wallet" (wallet.spec.additional_metadata.labels ∷ []);
    match_labels = get_common_labels wallet [];
    template = pod_template wallet volumes;
  })
