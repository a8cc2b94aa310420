-- ===== src/Tests/Cells.antt =====
-- The sample harvester with plots as it lies in memory, in cells of its types.
use chia_opera.Base.{ℕ, true, false, some, none, [], ◌∷◌, leb, pos, if◌then◌else◌}
use chia_opera.Api.Common.{ResourceMeta, ChiaKeysSpec}
use chia_opera.DeepCopy
use chia_opera.DeepCopy.{CellType, Content, Ref}
use chia_opera.Tests.Data.{sample, claim, directory, plot_storage, harvester}

abbrev pub no_meta : ResourceMeta
no_meta = record { api_version = ""; kind = ""; name = ""; namespace = ""; uid = "" }

abbrev pub no_metadata : DeepCopy.AdditionalMetadataCell
no_metadata = record { labels = none; annotations = none }

abbrev pub no_exporter : DeepCopy.ChiaExporterConfigSpecCell
no_exporter = record { image = ""; service_labels = none }

abbrev pub no_keys : ChiaKeysSpec
no_keys = record { name = ""; key = "" }

abbrev pub no_node_config : DeepCopy.ChiaNodeConfigSpecCell
no_node_config = record {
  ca_secret_name = "";
  testnet = none;
  log_level = none;
  timezone = none;
  image = "";
  liveness_probe = none;
  readiness_probe = none;
  startup_probe = none;
  resources = none;
  security_context = none;
}

abbrev pub no_node_spec : DeepCopy.ChiaNodeSpecCell
no_node_spec = record {
  additional_metadata = no_metadata;
  chia_config = no_node_config;
  chia_exporter_config = no_exporter;
  storage = none;
  service_type = "";
  image_pull_policy = none;
  replicas = none;
  node_selector = none;
  pod_security_context = none;
}

abbrev pub no_farmer_config : DeepCopy.ChiaFarmerConfigSpecCell
no_farmer_config = record {
  ca_secret_name = "";
  secret_key_spec = no_keys;
  full_node_peer = "";
  testnet = none;
  log_level = none;
  timezone = none;
  image = "";
  liveness_probe = none;
  readiness_probe = none;
  startup_probe = none;
  resources = none;
  security_context = none;
}

abbrev pub no_farmer_spec : DeepCopy.ChiaFarmerSpecCell
no_farmer_spec = record {
  additional_metadata = no_metadata;
  chia_config = no_farmer_config;
  chia_exporter_config = no_exporter;
  storage = none;
  service_type = "";
  image_pull_policy = none;
  node_selector = none;
  pod_security_context = none;
}

abbrev pub no_wallet_config : DeepCopy.ChiaWalletConfigSpecCell
no_wallet_config = record {
  ca_secret_name = "";
  secret_key_spec = no_keys;
  full_node_peer = "";
  testnet = none;
  log_level = none;
  timezone = none;
  image = "";
  liveness_probe = none;
  readiness_probe = none;
  startup_probe = none;
  resources = none;
  security_context = none;
}

abbrev pub no_wallet_spec : DeepCopy.ChiaWalletSpecCell
no_wallet_spec = record {
  additional_metadata = no_metadata;
  chia_config = no_wallet_config;
  chia_exporter_config = no_exporter;
  storage = none;
  service_type = "";
  image_pull_policy = none;
  node_selector = none;
  pod_security_context = none;
}

abbrev pub no_harvester_config : DeepCopy.ChiaHarvesterConfigSpecCell
no_harvester_config = record {
  ca_secret_name = "";
  farmer_address = "";
  testnet = none;
  log_level = none;
  timezone = none;
  image = "";
  liveness_probe = none;
  readiness_probe = none;
  startup_probe = none;
  resources = none;
  security_context = none;
}

abbrev pub no_harvester_spec : DeepCopy.ChiaHarvesterSpecCell
no_harvester_spec = record {
  additional_metadata = no_metadata;
  chia_config = no_harvester_config;
  chia_exporter_config = no_exporter;
  storage = none;
  service_type = "";
  image_pull_policy = none;
  node_selector = none;
  pod_security_context = none;
}

-- The harvester in its cell.
abbrev pub stored : DeepCopy.ChiaHarvesterCell
stored = record {
  meta = (harvester plot_storage).meta;
  spec = record {
    additional_metadata = record { labels = some 9; annotations = none };
    chia_config = record no_harvester_config {
      ca_secret_name = "ca";
      farmer_address = "my-farmer";
      testnet = some 0;
      log_level = some 1;
      image = "chia:latest";
    };
    chia_exporter_config = record { image = ""; service_labels = some 10 };
    storage = some 2;
    service_type = "ClusterIP";
    image_pull_policy = none;
    node_selector = none;
    pod_security_context = none;
  };
  status = record { ready = false };
}

-- The cells by their types, of most of which there is one in use.
unfoldable pub cells : (c : CellType) → ℕ → Content sample c
cells CellType.bools q = true
cells CellType.strings q = "INFO"
cells CellType.ints q = pos 0
cells CellType.maps q = if leb q 9 then ("team", "a") ∷ [] else ("key", "value") ∷ []
cells CellType.probes q = record { path = ""; port = 0; failure_threshold = 0; period_seconds = 0 }
cells CellType.requirements q = ""
cells CellType.security_contexts q = ""
cells CellType.pod_security_contexts q = ""
cells CellType.claims q = claim ""
cells CellType.host_paths q = directory
cells CellType.claim_slices q = some 5 ∷ none ∷ some 6 ∷ []
cells CellType.host_path_slices q = some 8 ∷ []
cells CellType.chia_roots q = record { persistent_volume_claim = none; host_path_volume = none }
cells CellType.plot_configs q = record {
  persistent_volume_claim = some 4;
  host_path_volume = some 7;
}
cells CellType.storages q = record { chia_root = none; plots = some 3 }
cells CellType.metadata q = no_metadata
cells CellType.exporters q = no_exporter
cells CellType.keys q = no_keys
cells CellType.node_configs q = no_node_config
cells CellType.node_specs q = no_node_spec
cells CellType.node_statuses q = record { ready = false }
cells CellType.nodes q = record {
  meta = no_meta;
  spec = no_node_spec;
  status = record { ready = false };
}
cells CellType.node_slices q = []
cells CellType.node_lists q = record { meta = record { resource_version = "" }; items = none }
cells CellType.farmer_configs q = no_farmer_config
cells CellType.farmer_specs q = no_farmer_spec
cells CellType.farmer_statuses q = record { ready = false }
cells CellType.farmers q = record {
  meta = no_meta;
  spec = no_farmer_spec;
  status = record { ready = false };
}
cells CellType.farmer_slices q = []
cells CellType.farmer_lists q = record { meta = record { resource_version = "" }; items = none }
cells CellType.wallet_configs q = no_wallet_config
cells CellType.wallet_specs q = no_wallet_spec
cells CellType.wallet_statuses q = record { ready = false }
cells CellType.wallets q = record {
  meta = no_meta;
  spec = no_wallet_spec;
  status = record { ready = false };
}
cells CellType.wallet_slices q = []
cells CellType.wallet_lists q = record { meta = record { resource_version = "" }; items = none }
cells CellType.harvester_configs q = no_harvester_config
cells CellType.harvester_specs q = no_harvester_spec
cells CellType.harvester_statuses q = record { ready = false }
cells CellType.harvesters q = stored
cells CellType.harvester_slices q = []
cells CellType.harvester_lists q = record { meta = record { resource_version = "" }; items = none }
cells CellType.ca_specs q = record { image = ""; image_pull_secret = ""; secret = "" }
cells CellType.ca_statuses q = record { ready = false }
cells CellType.cas q = record {
  meta = no_meta;
  spec = record { image = ""; image_pull_secret = ""; secret = "" };
  status = record { ready = false };
}
cells CellType.ca_slices q = []
cells CellType.ca_lists q = record { meta = record { resource_version = "" }; items = none }
