-- ===== src/DeepCopy/Parts.antt =====
-- api/v1/zz_generated.deepcopy.go: the types of api/v1/chiacommon_types.go.
use chia_opera.Base.{◌≡◌, refl, String}
use chia_opera.Kube.{Kube}
use chia_opera.Api.Common.{
  ChiaExporterConfigSpec, ChiaKeysSpec, AdditionalMetadata, PersistentVolumeClaimConfig,
  HostPathVolumeConfig, ChiaRootConfig, PlotsConfig, StorageConfig,
}
use chia_opera.DeepCopy.{
  Ref, maps, claims, host_paths, claim_slices, host_path_slices, chia_roots, plot_configs, storages,
  AdditionalMetadataCell, ChiaExporterConfigSpecCell, ChiaRootConfigCell, PlotsConfigCell,
  StorageConfigCell, metadata, exporters, keys,
}
use chia_opera.DeepCopy.Memory.{Store, Cmd, pure, ◌>>=◌}
use chia_opera.DeepCopy.Shapes.{Shape, plain, both, fields_of}
use chia_opera.DeepCopy.Refs.{copy_ref, copy_items, copy_entries, ref, ref_or_nil}
use chia_opera.DeepCopy.Items.{items, entries}
use chia_opera.DeepCopy.Library.{copied_with}

module _ (K : Kube) where
  unfoldable pub additional_metadata_deep_copy_into :
      AdditionalMetadataCell → Cmd (Store K) AdditionalMetadataCell
  additional_metadata_deep_copy_into m = do
    labels ← copy_ref K maps (copy_entries K) m.labels
    annotations ← copy_ref K maps (copy_entries K) m.annotations
    pure (record m { labels = labels; annotations = annotations })

  abbrev additional_metadata_fields : Shape K AdditionalMetadataCell AdditionalMetadata
  additional_metadata_fields =
      fields_of K (both K (ref_or_nil K maps (entries K)) (ref_or_nil K maps (entries K)))
        (λ (m : AdditionalMetadataCell). (m.labels, m.annotations))
        (λ t. record { labels = t.0; annotations = t.1 })
        (λ (v : AdditionalMetadata). (v.labels, v.annotations)) (λ t. refl)

  pub additional_metadata-copy :
      (m : AdditionalMetadataCell) (s : Store K)
      → additional_metadata_deep_copy_into m s ≡ additional_metadata_fields.copy m s
  unfolding additional_metadata_deep_copy_into
  additional_metadata-copy m s = refl

  abbrev pub additional_metadata : Shape K AdditionalMetadataCell AdditionalMetadata
  additional_metadata =
      copied_with K additional_metadata_fields additional_metadata_deep_copy_into
        additional_metadata-copy

  unfoldable pub additional_metadata_deep_copy : Ref → Cmd (Store K) Ref
  additional_metadata_deep_copy = copy_ref K metadata additional_metadata_deep_copy_into

  unfoldable pub chia_exporter_config_spec_deep_copy_into :
      ChiaExporterConfigSpecCell → Cmd (Store K) ChiaExporterConfigSpecCell
  chia_exporter_config_spec_deep_copy_into m = do
    service_labels ← copy_ref K maps (copy_entries K) m.service_labels
    pure (record m { service_labels = service_labels })

  abbrev chia_exporter_config_spec_fields :
      Shape K ChiaExporterConfigSpecCell ChiaExporterConfigSpec
  chia_exporter_config_spec_fields =
      fields_of K (both K (ref_or_nil K maps (entries K)) (plain K String))
        (λ (m : ChiaExporterConfigSpecCell). (m.service_labels, m.image))
        (λ t. record { service_labels = t.0; image = t.1 })
        (λ (v : ChiaExporterConfigSpec). (v.service_labels, v.image)) (λ t. refl)

  pub chia_exporter_config_spec-copy :
      (m : ChiaExporterConfigSpecCell) (s : Store K)
      → chia_exporter_config_spec_deep_copy_into m s ≡ chia_exporter_config_spec_fields.copy m s
  unfolding chia_exporter_config_spec_deep_copy_into
  chia_exporter_config_spec-copy m s = refl

  abbrev pub chia_exporter_config_spec : Shape K ChiaExporterConfigSpecCell ChiaExporterConfigSpec
  chia_exporter_config_spec =
      copied_with K chia_exporter_config_spec_fields chia_exporter_config_spec_deep_copy_into
        chia_exporter_config_spec-copy

  unfoldable pub chia_exporter_config_spec_deep_copy : Ref → Cmd (Store K) Ref
  chia_exporter_config_spec_deep_copy =
      copy_ref K exporters chia_exporter_config_spec_deep_copy_into

  unfoldable pub chia_keys_spec_deep_copy_into : ChiaKeysSpec → Cmd (Store K) ChiaKeysSpec
  chia_keys_spec_deep_copy_into m = pure m

  pub chia_keys_spec-copy :
      (m : ChiaKeysSpec) (s : Store K) → chia_keys_spec_deep_copy_into m s ≡ (m, s)
  unfolding chia_keys_spec_deep_copy_into
  chia_keys_spec-copy m s = refl

  abbrev pub chia_keys_spec : Shape K ChiaKeysSpec ChiaKeysSpec
  chia_keys_spec =
      copied_with K (plain K ChiaKeysSpec) chia_keys_spec_deep_copy_into chia_keys_spec-copy

  unfoldable pub chia_keys_spec_deep_copy : Ref → Cmd (Store K) Ref
  chia_keys_spec_deep_copy = copy_ref K keys chia_keys_spec_deep_copy_into

  unfoldable pub persistent_volume_claim_config_deep_copy_into :
      PersistentVolumeClaimConfig → Cmd (Store K) PersistentVolumeClaimConfig
  persistent_volume_claim_config_deep_copy_into m = pure m

  pub persistent_volume_claim_config-copy :
      (m : PersistentVolumeClaimConfig) (s : Store K)
      → persistent_volume_claim_config_deep_copy_into m s ≡ (m, s)
  unfolding persistent_volume_claim_config_deep_copy_into
  persistent_volume_claim_config-copy m s = refl

  abbrev pub persistent_volume_claim_config :
      Shape K PersistentVolumeClaimConfig PersistentVolumeClaimConfig
  persistent_volume_claim_config =
      copied_with K (plain K PersistentVolumeClaimConfig)
        persistent_volume_claim_config_deep_copy_into persistent_volume_claim_config-copy

  unfoldable pub persistent_volume_claim_config_deep_copy : Ref → Cmd (Store K) Ref
  persistent_volume_claim_config_deep_copy =
      copy_ref K claims persistent_volume_claim_config_deep_copy_into

  unfoldable pub host_path_volume_config_deep_copy_into :
      HostPathVolumeConfig → Cmd (Store K) HostPathVolumeConfig
  host_path_volume_config_deep_copy_into m = pure m

  pub host_path_volume_config-copy :
      (m : HostPathVolumeConfig) (s : Store K) → host_path_volume_config_deep_copy_into m s ≡ (m, s)
  unfolding host_path_volume_config_deep_copy_into
  host_path_volume_config-copy m s = refl

  abbrev pub host_path_volume_config : Shape K HostPathVolumeConfig HostPathVolumeConfig
  host_path_volume_config =
      copied_with K (plain K HostPathVolumeConfig) host_path_volume_config_deep_copy_into
        host_path_volume_config-copy

  unfoldable pub host_path_volume_config_deep_copy : Ref → Cmd (Store K) Ref
  host_path_volume_config_deep_copy = copy_ref K host_paths host_path_volume_config_deep_copy_into

  unfoldable pub chia_root_config_deep_copy_into :
      ChiaRootConfigCell → Cmd (Store K) ChiaRootConfigCell
  chia_root_config_deep_copy_into m = do
    persistent_volume_claim ← copy_ref K claims pure m.persistent_volume_claim
    host_path_volume ← copy_ref K host_paths pure m.host_path_volume
    pure (record m {
      persistent_volume_claim = persistent_volume_claim;
      host_path_volume = host_path_volume;
    })

  abbrev chia_root_config_fields : Shape K ChiaRootConfigCell ChiaRootConfig
  chia_root_config_fields =
      fields_of K
        (both K (ref K claims (plain K PersistentVolumeClaimConfig))
          (ref K host_paths (plain K HostPathVolumeConfig)))
        (λ (m : ChiaRootConfigCell). (m.persistent_volume_claim, m.host_path_volume))
        (λ t. record { persistent_volume_claim = t.0; host_path_volume = t.1 })
        (λ (v : ChiaRootConfig). (v.persistent_volume_claim, v.host_path_volume)) (λ t. refl)

  pub chia_root_config-copy :
      (m : ChiaRootConfigCell) (s : Store K)
      → chia_root_config_deep_copy_into m s ≡ chia_root_config_fields.copy m s
  unfolding chia_root_config_deep_copy_into
  chia_root_config-copy m s = refl

  abbrev pub chia_root_config : Shape K ChiaRootConfigCell ChiaRootConfig
  chia_root_config =
      copied_with K chia_root_config_fields chia_root_config_deep_copy_into chia_root_config-copy

  unfoldable pub chia_root_config_deep_copy : Ref → Cmd (Store K) Ref
  chia_root_config_deep_copy = copy_ref K chia_roots chia_root_config_deep_copy_into

  unfoldable pub plots_config_deep_copy_into : PlotsConfigCell → Cmd (Store K) PlotsConfigCell
  plots_config_deep_copy_into m = do
    persistent_volume_claim ←
        copy_ref K claim_slices (copy_items K (copy_ref K claims pure)) m.persistent_volume_claim
    host_path_volume ←
        copy_ref K host_path_slices (copy_items K (copy_ref K host_paths pure)) m.host_path_volume
    pure (record m {
      persistent_volume_claim = persistent_volume_claim;
      host_path_volume = host_path_volume;
    })

  abbrev plots_config_fields : Shape K PlotsConfigCell PlotsConfig
  plots_config_fields =
      fields_of K
        (both K
          (ref_or_nil K claim_slices (items K (ref K claims (plain K PersistentVolumeClaimConfig))))
          (ref_or_nil K host_path_slices
            (items K (ref K host_paths (plain K HostPathVolumeConfig)))))
        (λ (m : PlotsConfigCell). (m.persistent_volume_claim, m.host_path_volume))
        (λ t. record { persistent_volume_claim = t.0; host_path_volume = t.1 })
        (λ (v : PlotsConfig). (v.persistent_volume_claim, v.host_path_volume)) (λ t. refl)

  pub plots_config-copy :
      (m : PlotsConfigCell) (s : Store K)
      → plots_config_deep_copy_into m s ≡ plots_config_fields.copy m s
  unfolding plots_config_deep_copy_into
  plots_config-copy m s = refl

  abbrev pub plots_config : Shape K PlotsConfigCell PlotsConfig
  plots_config = copied_with K plots_config_fields plots_config_deep_copy_into plots_config-copy

  unfoldable pub plots_config_deep_copy : Ref → Cmd (Store K) Ref
  plots_config_deep_copy = copy_ref K plot_configs plots_config_deep_copy_into

  unfoldable pub storage_config_deep_copy_into : StorageConfigCell → Cmd (Store K) StorageConfigCell
  storage_config_deep_copy_into m = do
    chia_root ← copy_ref K chia_roots chia_root_config_deep_copy_into m.chia_root
    plots ← copy_ref K plot_configs plots_config_deep_copy_into m.plots
    pure (record m { chia_root = chia_root; plots = plots })

  abbrev storage_config_fields : Shape K StorageConfigCell StorageConfig
  storage_config_fields =
      fields_of K (both K (ref K chia_roots chia_root_config) (ref K plot_configs plots_config))
        (λ (m : StorageConfigCell). (m.chia_root, m.plots))
        (λ t. record { chia_root = t.0; plots = t.1 })
        (λ (v : StorageConfig). (v.chia_root, v.plots)) (λ t. refl)

  pub storage_config-copy :
      (m : StorageConfigCell) (s : Store K)
      → storage_config_deep_copy_into m s ≡ storage_config_fields.copy m s
  unfolding storage_config_deep_copy_into
  storage_config-copy m s = refl

  abbrev pub storage_config : Shape K StorageConfigCell StorageConfig
  storage_config =
      copied_with K storage_config_fields storage_config_deep_copy_into storage_config-copy

  unfoldable pub storage_config_deep_copy : Ref → Cmd (Store K) Ref
  storage_config_deep_copy = copy_ref K storages storage_config_deep_copy_into
