-- ===== src/Node.antt =====
-- internal/controller/chianode_controller.go: the objects that are assembled for a ChiaNode.
pub mod Pod
pub mod Network
pub mod Reconcile
pub mod Owned
use chia_opera.Base.{
  ℕ, String, ◌<>◌, Bool, false, Option, none, some, List, [], ◌∷◌, ◌++◌, StringMap, Eval, value,
  panic, bad_quantity, bind_eval, if◌then◌else◌,
}
use chia_opera.Kube.{
  Kube, OwnerReference, ObjectMeta, Service, EnvVar, Container, VolumeMount, Volume, secret,
  host_path, empty_dir, PersistentVolumeClaim, PodTemplateSpec, StatefulSet,
}
use chia_opera.Api.Common.{PersistentVolumeClaimConfig, HostPathVolumeConfig}
use chia_opera.Api.Node.{ChiaNode}
use chia_opera.Common.{
  service_ports, metrics_ports, container_ports, component_labels, owner_reference, or_zero,
  exporter_image, env_if_set, env_testnet, root_claim, root_host_path, get_chia_exporter_container,
}

abbrev pub mainnet_node_port : ℕ
mainnet_node_port = 8444

abbrev pub testnet_node_port : ℕ
testnet_node_port = 58444

abbrev pub node_rpc_port : ℕ
node_rpc_port = 8555

unfoldable pub port_of : Option Bool → ℕ
port_of none = mainnet_node_port
port_of (some testnet) = if testnet then testnet_node_port else mainnet_node_port

module _ (K : Kube) where
  unfoldable pub get_common_labels : ChiaNode K → List StringMap → StringMap
  unfolding component_labels
  get_common_labels node additional = component_labels "chianode-owner" node.meta.name additional

  unfoldable pub get_owner_reference : ChiaNode K → List OwnerReference
  unfolding owner_reference
  get_owner_reference node = owner_reference node.meta

  -- The `ObjectMeta` that the literals of this file share, at a name and added labels.
  unfoldable pub object_meta : ChiaNode K → String → List StringMap → ObjectMeta
  unfolding get_owner_reference
  object_meta node suffix additional = record {
    name = node.meta.name <> suffix;
    namespace = node.meta.namespace;
    labels = get_common_labels node additional;
    annotations = node.spec.additional_metadata.annotations;
    owner_references = get_owner_reference node;
  }

  unfoldable pub get_full_node_port : ChiaNode K → ℕ
  unfolding port_of
  get_full_node_port node = port_of node.spec.chia_config.testnet

  unfoldable pub assemble_base_service : ChiaNode K → Service
  unfolding object_meta service_ports get_full_node_port
  assemble_base_service node = record {
    meta = object_meta node "-node" (node.spec.additional_metadata.labels ∷ []);
    service_type = node.spec.service_type;
    cluster_ip = "";
    internal_traffic_policy = none;
    ports = service_ports (get_full_node_port node) node_rpc_port;
    selector = get_common_labels node (node.spec.additional_metadata.labels ∷ []);
  }

  unfoldable pub assemble_internal_service : ChiaNode K → Service
  unfolding object_meta service_ports get_full_node_port
  assemble_internal_service node = record {
    meta = object_meta node "-node-internal" (node.spec.additional_metadata.labels ∷ []);
    service_type = "ClusterIP";
    cluster_ip = "";
    internal_traffic_policy = some "Local";
    ports = service_ports (get_full_node_port node) node_rpc_port;
    selector = get_common_labels node (node.spec.additional_metadata.labels ∷ []);
  }

  unfoldable pub assemble_headless_service : ChiaNode K → Service
  unfolding object_meta service_ports get_full_node_port
  assemble_headless_service node = record {
    meta = object_meta node "-node-headless" (node.spec.additional_metadata.labels ∷ []);
    service_type = "ClusterIP";
    cluster_ip = "None";
    internal_traffic_policy = none;
    ports = service_ports (get_full_node_port node) node_rpc_port;
    selector = get_common_labels node (node.spec.additional_metadata.labels ∷ []);
  }

  unfoldable pub assemble_chia_exporter_service : ChiaNode K → Service
  unfolding object_meta metrics_ports
  assemble_chia_exporter_service node = record {
    meta =
        object_meta node "-node-metrics" (
          node.spec.additional_metadata.labels ∷ node.spec.chia_exporter_config.service_labels
          ∷ []);
    service_type = "ClusterIP";
    cluster_ip = "";
    internal_traffic_policy = none;
    ports = metrics_ports;
    selector = get_common_labels node (node.spec.additional_metadata.labels ∷ []);
  }

  ca_volume : ChiaNode K → Volume
  ca_volume node = record {
    name = "secret-ca";
    source = secret node.spec.chia_config.ca_secret_name;
  }

  -- The claim template of CHIA_ROOT, over the parsed request.
  root_template : PersistentVolumeClaimConfig → K.Quantity → PersistentVolumeClaim K
  root_template claim quantity = record {
    name = "chiaroot";
    access_modes = "ReadWriteOnce" ∷ [];
    storage_class_name = some claim.storage_class;
    resources = K.storage_request quantity;
  }

  -- `resource.MustParse` panics where there is no quantity.
  claim_template :
      PersistentVolumeClaimConfig → Option K.Quantity → Eval (List (PersistentVolumeClaim K))
  unfolding root_template
  claim_template claim none = panic bad_quantity
  claim_template claim (some quantity) = value (root_template claim quantity ∷ [])

  root_volumes_and_templates :
      Volume
      → Option PersistentVolumeClaimConfig
      → Option HostPathVolumeConfig
      → Eval (List Volume × List (PersistentVolumeClaim K))
  unfolding claim_template
  root_volumes_and_templates ca (some claim) host =
      bind_eval (claim_template claim (K.parse_quantity claim.resource_request))
        λ templates. value (ca ∷ [], templates)
  root_volumes_and_templates ca none (some host) =
      value (ca ∷ record { name = "chiaroot"; source = host_path host.path } ∷ [], [])
  root_volumes_and_templates ca none none =
      value (ca ∷ record { name = "chiaroot"; source = empty_dir } ∷ [], [])

  unfoldable pub get_chia_volumes_and_templates :
      ChiaNode K → Eval (List Volume × List (PersistentVolumeClaim K))
  unfolding root_volumes_and_templates ca_volume
  get_chia_volumes_and_templates node =
      root_volumes_and_templates (ca_volume node) (root_claim node.spec.storage)
        (root_host_path node.spec.storage)

  unfoldable pub get_chia_volume_mounts : ChiaNode K → List VolumeMount
  get_chia_volume_mounts node =
      record { name = "secret-ca"; read_only = false; mount_path = "/chia-ca" }
      ∷ record { name = "chiaroot"; read_only = false; mount_path = "/chia-data" }
      ∷ []

  unfoldable pub get_chia_node_env : ChiaNode K → List EnvVar
  get_chia_node_env node =
      record { name = "service"; value = "node" }
      ∷ record { name = "CHIA_ROOT"; value = "/chia-data" }
      ∷ record { name = "keys"; value = "none" }
      ∷ record { name = "ca"; value = "/chia-ca" }
      ∷ env_testnet node.spec.chia_config.testnet (
          env_if_set "TZ" node.spec.chia_config.timezone
            (env_if_set "log_level" node.spec.chia_config.log_level []))

  unfoldable pub chia_container : ChiaNode K → Container K
  unfolding get_chia_node_env get_chia_volume_mounts container_ports get_full_node_port
  chia_container node = record {
    name = "chia";
    security_context = node.spec.chia_config.security_context;
    image = node.spec.chia_config.image;
    image_pull_policy = or_zero "" node.spec.image_pull_policy;
    env = get_chia_node_env node;
    ports = container_ports (get_full_node_port node) node_rpc_port;
    liveness_probe = node.spec.chia_config.liveness_probe;
    readiness_probe = node.spec.chia_config.readiness_probe;
    startup_probe = node.spec.chia_config.startup_probe;
    resources = or_zero K.no_resources node.spec.chia_config.resources;
    volume_mounts = get_chia_volume_mounts node;
  }

  -- The exporter's container is appended to the literal's, and takes the chia container's settings.
  unfoldable pub pod_template : ChiaNode K → List Volume → PodTemplateSpec K
  unfolding chia_container get_chia_exporter_container
  pod_template node volumes = record {
    labels = get_common_labels node (node.spec.additional_metadata.labels ∷ []);
    annotations = node.spec.additional_metadata.annotations;
    spec = record {
      restart_policy = "";
      service_account_name = "";
      image_pull_secrets = [];
      containers =
          (chia_container node ∷ [])
          ++ (get_chia_exporter_container K (exporter_image node.spec.chia_exporter_config.image)
                node.spec.chia_config.security_context (or_zero "" node.spec.image_pull_policy)
                (or_zero K.no_resources node.spec.chia_config.resources)
              ∷ []);
      node_selector = node.spec.node_selector;
      volumes = volumes;
      security_context = node.spec.pod_security_context;
    };
  }

  unfoldable pub statefulset_of :
      ChiaNode K → List Volume × List (PersistentVolumeClaim K) → StatefulSet K
  unfolding pod_template object_meta
  statefulset_of node (volumes, templates) = record {
    meta = object_meta node "-node" (node.spec.additional_metadata.labels ∷ []);
    replicas = node.spec.replicas;
    match_labels = get_common_labels node [];
    service_name = node.meta.name <> "-headless";
    template = pod_template node volumes;
    volume_claim_templates = templates;
  }

  unfoldable pub assemble_statefulset : ChiaNode K → Eval (StatefulSet K)
  unfolding get_chia_volumes_and_templates statefulset_of
  assemble_statefulset node =
      bind_eval (get_chia_volumes_and_templates node) λ r. value (statefulset_of node r)
