-- ===== src/DeepCopy/Harvester.antt =====
-- api/v1/zz_generated.deepcopy.go: the types of api/v1/chiaharvester_types.go.
use chia_opera.Base.{◌≡◌, refl, String, Bool}
use chia_opera.Kube.{Kube}
use chia_opera.DeepCopy.{
  Ref, maps, bools, strings, probes, requirements, security_contexts, pod_security_contexts,
  storages, ListCell, CellType,
}
use chia_opera.DeepCopy.Memory.{Store, Cmd, pure, ◌>>=◌}
use chia_opera.DeepCopy.Shapes.{Shape, plain, copied_by, both, fields_of}
use chia_opera.DeepCopy.Refs.{copy_ref, copy_items, copy_entries, ref, ref_or_nil}
use chia_opera.DeepCopy.Items.{items, entries}
use chia_opera.DeepCopy.Library.{CopyLibrary, IsFaithful, copied_with}
use chia_opera.DeepCopy.Parts.{
  additional_metadata, additional_metadata_deep_copy_into, chia_exporter_config_spec,
  chia_exporter_config_spec_deep_copy_into, storage_config, storage_config_deep_copy_into,
}
use chia_opera.Api.Harvester.{
  ChiaHarvester, ChiaHarvesterList, ChiaHarvesterConfigSpec, ChiaHarvesterSpec, ChiaHarvesterStatus,
}
use chia_opera.DeepCopy.{
  ChiaHarvesterConfigSpecCell, ChiaHarvesterSpecCell, ChiaHarvesterCell, harvester_configs,
  harvester_specs, harvester_statuses, harvesters, harvester_slices, harvester_lists,
}
use chia_opera.DeepCopy.Library.{as_object}
use chia_opera.Base.{Option, ℕ}

module _ {K : Kube} (L : CopyLibrary K) where
  unfoldable pub chia_harvester_config_spec_deep_copy_into :
      ChiaHarvesterConfigSpecCell → Cmd (Store K) ChiaHarvesterConfigSpecCell
  chia_harvester_config_spec_deep_copy_into m = do
    testnet ← copy_ref K bools pure m.testnet
    log_level ← copy_ref K strings pure m.log_level
    timezone ← copy_ref K strings pure m.timezone
    liveness_probe ← copy_ref K probes (λ x. pure (L.probe x)) m.liveness_probe
    readiness_probe ← copy_ref K probes (λ x. pure (L.probe x)) m.readiness_probe
    startup_probe ← copy_ref K probes (λ x. pure (L.probe x)) m.startup_probe
    resources ← copy_ref K requirements (λ x. pure (L.resources x)) m.resources
    security_context ←
        copy_ref K security_contexts (λ x. pure (L.security_context x)) m.security_context
    pure (record m {
      testnet = testnet;
      log_level = log_level;
      timezone = timezone;
      liveness_probe = liveness_probe;
      readiness_probe = readiness_probe;
      startup_probe = startup_probe;
      resources = resources;
      security_context = security_context;
    })

  unfoldable pub chia_harvester_config_spec_deep_copy : Ref → Cmd (Store K) Ref
  chia_harvester_config_spec_deep_copy =
      copy_ref K harvester_configs chia_harvester_config_spec_deep_copy_into

  unfoldable pub chia_harvester_spec_deep_copy_into :
      ChiaHarvesterSpecCell → Cmd (Store K) ChiaHarvesterSpecCell
  chia_harvester_spec_deep_copy_into m = do
    additional_metadata ← additional_metadata_deep_copy_into K m.additional_metadata
    chia_config ← chia_harvester_config_spec_deep_copy_into m.chia_config
    chia_exporter_config ← chia_exporter_config_spec_deep_copy_into K m.chia_exporter_config
    storage ← copy_ref K storages (storage_config_deep_copy_into K) m.storage
    image_pull_policy ← copy_ref K strings pure m.image_pull_policy
    node_selector ← copy_ref K maps (copy_entries K) m.node_selector
    pod_security_context ←
        copy_ref K pod_security_contexts (λ x. pure (L.pod_security_context x))
          m.pod_security_context
    pure (record m {
      additional_metadata = additional_metadata;
      chia_config = chia_config;
      chia_exporter_config = chia_exporter_config;
      storage = storage;
      image_pull_policy = image_pull_policy;
      node_selector = node_selector;
      pod_security_context = pod_security_context;
    })

  unfoldable pub chia_harvester_spec_deep_copy : Ref → Cmd (Store K) Ref
  chia_harvester_spec_deep_copy = copy_ref K harvester_specs chia_harvester_spec_deep_copy_into

  unfoldable pub chia_harvester_status_deep_copy_into :
      ChiaHarvesterStatus → Cmd (Store K) ChiaHarvesterStatus
  chia_harvester_status_deep_copy_into m = pure m

  unfoldable pub chia_harvester_status_deep_copy : Ref → Cmd (Store K) Ref
  chia_harvester_status_deep_copy =
      copy_ref K harvester_statuses chia_harvester_status_deep_copy_into

  unfoldable pub chia_harvester_deep_copy_into : ChiaHarvesterCell → Cmd (Store K) ChiaHarvesterCell
  chia_harvester_deep_copy_into m = do
    meta ← pure (L.object_meta m.meta)
    spec ← chia_harvester_spec_deep_copy_into m.spec
    pure (record m { meta = meta; spec = spec })

  unfoldable pub chia_harvester_deep_copy : Ref → Cmd (Store K) Ref
  chia_harvester_deep_copy = copy_ref K harvesters chia_harvester_deep_copy_into

  unfoldable pub chia_harvester_deep_copy_object : Ref → Cmd (Store K) (Option (CellType × ℕ))
  unfolding chia_harvester_deep_copy
  chia_harvester_deep_copy_object p = do
    c ← chia_harvester_deep_copy p
    pure (as_object harvesters c)

  unfoldable pub chia_harvester_list_deep_copy_into : ListCell → Cmd (Store K) ListCell
  chia_harvester_list_deep_copy_into m = do
    meta ← pure (L.list_meta m.meta)
    items ← copy_ref K harvester_slices (copy_items K (chia_harvester_deep_copy_into)) m.items
    pure (record m { meta = meta; items = items })

  unfoldable pub chia_harvester_list_deep_copy : Ref → Cmd (Store K) Ref
  chia_harvester_list_deep_copy = copy_ref K harvester_lists chia_harvester_list_deep_copy_into

  unfoldable pub chia_harvester_list_deep_copy_object : Ref → Cmd (Store K) (Option (CellType × ℕ))
  unfolding chia_harvester_list_deep_copy
  chia_harvester_list_deep_copy_object p = do
    c ← chia_harvester_list_deep_copy p
    pure (as_object harvester_lists c)

module _ {K : Kube} {L : CopyLibrary K} (F : IsFaithful L) where
  abbrev chia_harvester_config_spec_fields :
      Shape K ChiaHarvesterConfigSpecCell (ChiaHarvesterConfigSpec K)
  chia_harvester_config_spec_fields =
      fields_of K
        (both K (ref K bools (plain K Bool)) (
          both K (ref K strings (plain K String)) (
            both K (ref K strings (plain K String)) (
              both K (ref K probes (copied_by K L.probe F.same_probe)) (
                both K (ref K probes (copied_by K L.probe F.same_probe)) (
                  both K (ref K probes (copied_by K L.probe F.same_probe)) (
                    both K (ref K requirements (copied_by K L.resources F.same_resources)) (
                      both K
                        (ref K security_contexts
                          (copied_by K L.security_context F.same_security_context))
                        (both K (plain K String) (both K (plain K String) (plain K String)))))))))))
        (λ (m : ChiaHarvesterConfigSpecCell). (
          m.testnet,
          (
            m.log_level,
            (
              m.timezone,
              (
                m.liveness_probe,
                (
                  m.readiness_probe,
                  (
                    m.startup_probe,
                    (
                      m.resources,
                      (m.security_context, (m.ca_secret_name, (m.farmer_address, m.image))),
                    ),
                  ),
                ),
              ),
            ),
          ),
        ))
        (λ t. record {
          testnet = t.0;
          log_level = t.1.0;
          timezone = t.1.1.0;
          liveness_probe = t.1.1.1.0;
          readiness_probe = t.1.1.1.1.0;
          startup_probe = t.1.1.1.1.1.0;
          resources = t.1.1.1.1.1.1.0;
          security_context = t.1.1.1.1.1.1.1.0;
          ca_secret_name = t.1.1.1.1.1.1.1.1.0;
          farmer_address = t.1.1.1.1.1.1.1.1.1.0;
          image = t.1.1.1.1.1.1.1.1.1.1;
        })
        (λ (v : (ChiaHarvesterConfigSpec K)). (
          v.testnet,
          (
            v.log_level,
            (
              v.timezone,
              (
                v.liveness_probe,
                (
                  v.readiness_probe,
                  (
                    v.startup_probe,
                    (
                      v.resources,
                      (v.security_context, (v.ca_secret_name, (v.farmer_address, v.image))),
                    ),
                  ),
                ),
              ),
            ),
          ),
        ))
        (λ t. refl)

  pub chia_harvester_config_spec-copy :
      (m : ChiaHarvesterConfigSpecCell) (s : Store K)
      → chia_harvester_config_spec_deep_copy_into L m s ≡ chia_harvester_config_spec_fields.copy m s
  unfolding chia_harvester_config_spec_deep_copy_into
  chia_harvester_config_spec-copy m s = refl

  abbrev pub chia_harvester_config_spec :
      Shape K ChiaHarvesterConfigSpecCell (ChiaHarvesterConfigSpec K)
  chia_harvester_config_spec =
      copied_with K chia_harvester_config_spec_fields (chia_harvester_config_spec_deep_copy_into L)
        chia_harvester_config_spec-copy

  abbrev chia_harvester_spec_fields : Shape K ChiaHarvesterSpecCell (ChiaHarvesterSpec K)
  chia_harvester_spec_fields =
      fields_of K
        (both K (additional_metadata K) (
          both K (chia_harvester_config_spec) (
            both K (chia_exporter_config_spec K) (
              both K (ref K storages (storage_config K)) (
                both K (ref K strings (plain K String)) (
                  both K (ref_or_nil K maps (entries K)) (
                    both K
                      (ref K pod_security_contexts
                        (copied_by K L.pod_security_context F.same_pod_security_context))
                      (plain K String))))))))
        (λ (m : ChiaHarvesterSpecCell). (
          m.additional_metadata,
          (
            m.chia_config,
            (
              m.chia_exporter_config,
              (
                m.storage,
                (m.image_pull_policy, (m.node_selector, (m.pod_security_context, m.service_type))),
              ),
            ),
          ),
        ))
        (λ t. record {
          additional_metadata = t.0;
          chia_config = t.1.0;
          chia_exporter_config = t.1.1.0;
          storage = t.1.1.1.0;
          image_pull_policy = t.1.1.1.1.0;
          node_selector = t.1.1.1.1.1.0;
          pod_security_context = t.1.1.1.1.1.1.0;
          service_type = t.1.1.1.1.1.1.1;
        })
        (λ (v : (ChiaHarvesterSpec K)). (
          v.additional_metadata,
          (
            v.chia_config,
            (
              v.chia_exporter_config,
              (
                v.storage,
                (v.image_pull_policy, (v.node_selector, (v.pod_security_context, v.service_type))),
              ),
            ),
          ),
        ))
        (λ t. refl)

  pub chia_harvester_spec-copy :
      (m : ChiaHarvesterSpecCell) (s : Store K)
      → chia_harvester_spec_deep_copy_into L m s ≡ chia_harvester_spec_fields.copy m s
  unfolding chia_harvester_spec_deep_copy_into
  chia_harvester_spec-copy m s = refl

  abbrev pub chia_harvester_spec : Shape K ChiaHarvesterSpecCell (ChiaHarvesterSpec K)
  chia_harvester_spec =
      copied_with K chia_harvester_spec_fields (chia_harvester_spec_deep_copy_into L)
        chia_harvester_spec-copy

  pub chia_harvester_status-copy :
      (m : ChiaHarvesterStatus) (s : Store K) → chia_harvester_status_deep_copy_into L m s ≡ (m, s)
  unfolding chia_harvester_status_deep_copy_into
  chia_harvester_status-copy m s = refl

  abbrev pub chia_harvester_status : Shape K ChiaHarvesterStatus ChiaHarvesterStatus
  chia_harvester_status =
      copied_with K (plain K ChiaHarvesterStatus) (chia_harvester_status_deep_copy_into L)
        chia_harvester_status-copy

  abbrev chia_harvester_fields : Shape K ChiaHarvesterCell (ChiaHarvester K)
  chia_harvester_fields =
      fields_of K
        (both K (copied_by K L.object_meta F.same_object_meta)
          (both K (chia_harvester_spec) (plain K ChiaHarvesterStatus)))
        (λ (m : ChiaHarvesterCell). (m.meta, (m.spec, m.status)))
        (λ t. record { meta = t.0; spec = t.1.0; status = t.1.1 })
        (λ (v : (ChiaHarvester K)). (v.meta, (v.spec, v.status))) (λ t. refl)

  pub chia_harvester-copy :
      (m : ChiaHarvesterCell) (s : Store K)
      → chia_harvester_deep_copy_into L m s ≡ chia_harvester_fields.copy m s
  unfolding chia_harvester_deep_copy_into
  chia_harvester-copy m s = refl

  abbrev pub chia_harvester : Shape K ChiaHarvesterCell (ChiaHarvester K)
  chia_harvester =
      copied_with K chia_harvester_fields (chia_harvester_deep_copy_into L) chia_harvester-copy

  abbrev chia_harvester_list_fields : Shape K ListCell (ChiaHarvesterList K)
  chia_harvester_list_fields =
      fields_of K
        (both K (copied_by K L.list_meta F.same_list_meta)
          (ref_or_nil K harvester_slices (items K (chia_harvester))))
        (λ (m : ListCell). (m.meta, m.items)) (λ t. record { meta = t.0; items = t.1 })
        (λ (v : (ChiaHarvesterList K)). (v.meta, v.items)) (λ t. refl)

  pub chia_harvester_list-copy :
      (m : ListCell) (s : Store K)
      → chia_harvester_list_deep_copy_into L m s ≡ chia_harvester_list_fields.copy m s
  unfolding chia_harvester_list_deep_copy_into
  chia_harvester_list-copy m s = refl

  abbrev pub chia_harvester_list : Shape K ListCell (ChiaHarvesterList K)
  chia_harvester_list =
      copied_with K chia_harvester_list_fields (chia_harvester_list_deep_copy_into L)
        chia_harvester_list-copy
