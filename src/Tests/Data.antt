-- ===== src/Tests/Data.antt =====
-- Resources and API types for the tests.
use chia_opera.Base.{String, true, false, Option, none, some, [], ◌∷◌, ◌==◌, if◌then◌else◌, pos}
use chia_opera.Kube.{Kube, HttpProbe}
use chia_opera.Api.Common.{StorageConfig, PersistentVolumeClaimConfig, HostPathVolumeConfig}
use chia_opera.Api.Node.{ChiaNode}
use chia_opera.Api.Farmer.{ChiaFarmer}
use chia_opera.Api.Wallet.{ChiaWallet}
use chia_opera.Api.Harvester.{ChiaHarvester}
use chia_opera.Api.Ca.{ChiaCa}

-- Passed-on values are texts, and every text but the empty one is a quantity.
abbrev pub sample : Kube
sample = record {
  Probe = HttpProbe;
  SecurityContext = String;
  PodSecurityContext = String;
  ResourceRequirements = String;
  Quantity = String;
  no_resources = "";
  http_probe = λ p. p;
  parse_quantity = λ s. if s == "" then none else some s;
  storage_request = λ q. q;
}

abbrev pub claim : String → PersistentVolumeClaimConfig
claim request = record { claim_name = "data"; storage_class = ""; resource_request = request }

abbrev pub directory : HostPathVolumeConfig
directory = record { path = "/srv/chia" }

abbrev pub root_storage :
    Option PersistentVolumeClaimConfig → Option HostPathVolumeConfig → Option StorageConfig
root_storage c h = some (record {
  chia_root = some (record { persistent_volume_claim = c; host_path_volume = h });
  plots = none;
})

-- Two claims around a nil pointer, and a directory.
abbrev pub plot_storage : Option StorageConfig
plot_storage = some (record {
  chia_root = none;
  plots = some (record {
    persistent_volume_claim = some (claim "") ∷ none ∷ some (claim "") ∷ [];
    host_path_volume = some directory ∷ [];
  });
})

abbrev pub node : Option StorageConfig → ChiaNode sample
node storage = record {
  meta = record {
    api_version = "k8s.chia.net/v1";
    kind = "ChiaNode";
    name = "my";
    namespace = "farm";
    uid = "u-1";
  };
  spec = record {
    additional_metadata = record { labels = ("team", "a") ∷ []; annotations = [] };
    chia_config = record {
      ca_secret_name = "ca";
      testnet = some true;
      log_level = some "INFO";
      timezone = none;
      image = "chia:latest";
      liveness_probe = none;
      readiness_probe = none;
      startup_probe = none;
      resources = none;
      security_context = none;
    };
    chia_exporter_config = record { image = ""; service_labels = ("key", "value") ∷ [] };
    storage = storage;
    service_type = "ClusterIP";
    image_pull_policy = none;
    replicas = some (pos 1);
    node_selector = [];
    pod_security_context = none;
  };
  status = record { ready = false };
}

abbrev pub farmer : Option StorageConfig → ChiaFarmer sample
farmer storage = record {
  meta = record {
    api_version = "k8s.chia.net/v1";
    kind = "ChiaFarmer";
    name = "my";
    namespace = "farm";
    uid = "u-1";
  };
  spec = record {
    additional_metadata = record { labels = ("team", "a") ∷ []; annotations = [] };
    chia_config = record {
      ca_secret_name = "ca";
      secret_key_spec = record { name = "mnemonic"; key = "key.txt" };
      full_node_peer = "my-node:8444";
      testnet = some true;
      log_level = some "INFO";
      timezone = none;
      image = "chia:latest";
      liveness_probe = none;
      readiness_probe = none;
      startup_probe = none;
      resources = none;
      security_context = none;
    };
    chia_exporter_config = record { image = ""; service_labels = ("key", "value") ∷ [] };
    storage = storage;
    service_type = "ClusterIP";
    image_pull_policy = none;
    node_selector = [];
    pod_security_context = none;
  };
  status = record { ready = false };
}

abbrev pub wallet : Option StorageConfig → ChiaWallet sample
wallet storage = record {
  meta = record {
    api_version = "k8s.chia.net/v1";
    kind = "ChiaWallet";
    name = "my";
    namespace = "farm";
    uid = "u-1";
  };
  spec = record {
    additional_metadata = record { labels = ("team", "a") ∷ []; annotations = [] };
    chia_config = record {
      ca_secret_name = "ca";
      secret_key_spec = record { name = "mnemonic"; key = "key.txt" };
      full_node_peer = "my-node:8444";
      testnet = some true;
      log_level = some "INFO";
      timezone = none;
      image = "chia:latest";
      liveness_probe = none;
      readiness_probe = none;
      startup_probe = none;
      resources = none;
      security_context = none;
    };
    chia_exporter_config = record { image = ""; service_labels = ("key", "value") ∷ [] };
    storage = storage;
    service_type = "ClusterIP";
    image_pull_policy = none;
    node_selector = [];
    pod_security_context = none;
  };
  status = record { ready = false };
}

abbrev pub harvester : Option StorageConfig → ChiaHarvester sample
harvester storage = record {
  meta = record {
    api_version = "k8s.chia.net/v1";
    kind = "ChiaHarvester";
    name = "my";
    namespace = "farm";
    uid = "u-1";
  };
  spec = record {
    additional_metadata = record { labels = ("team", "a") ∷ []; annotations = [] };
    chia_config = record {
      ca_secret_name = "ca";
      farmer_address = "my-farmer";
      testnet = some true;
      log_level = some "INFO";
      timezone = none;
      image = "chia:latest";
      liveness_probe = none;
      readiness_probe = none;
      startup_probe = none;
      resources = none;
      security_context = none;
    };
    chia_exporter_config = record { image = ""; service_labels = ("key", "value") ∷ [] };
    storage = storage;
    service_type = "ClusterIP";
    image_pull_policy = none;
    node_selector = [];
    pod_security_context = none;
  };
  status = record { ready = false };
}

abbrev pub ca : ChiaCa
ca = record {
  meta = record {
    api_version = "k8s.chia.net/v1";
    kind = "ChiaCA";
    name = "my";
    namespace = "farm";
    uid = "u-2";
  };
  spec = record { image = "ca-gen:latest"; image_pull_secret = ""; secret = "my-ca" };
  status = record { ready = false };
}
