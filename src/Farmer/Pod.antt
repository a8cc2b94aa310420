-- ===== src/Farmer/Pod.antt =====
-- The workload of a ChiaFarmer and the services in front of it.
use chia_opera.Base.{
  ◌≡◌, refl, sym, List, [], ◌∷◌, map, arith, value, panic, nil_dereference, Distinct,
  are_distinct-Distinct, head, tail,
}
use chia_opera.Kube.{Kube, Volume, secret, Deployment}
use chia_opera.Api.Farmer.{ChiaFarmer}
use chia_opera.Common.{container_ports}
use chia_opera.Common.Labels.{component_labels-IsSubmap}
use chia_opera.Common.Ports.{service_ports-reach, metrics_ports-reach}
use chia_opera.Common.Storage.{
  PanicsOn, root_volume, chia_root_volume-eq, chia_root_volume-panics, name-root_volume,
}
use chia_opera.Workload.{IsRouted, IsSound}
use chia_opera.Farmer.{
  farmer_port, farmer_rpc_port, object_meta, get_common_labels, get_chia_env, get_chia_volumes,
  pod_template, assemble_base_service, assemble_chia_exporter_service, assemble_deployment,
}

module _ (K : Kube) (farmer : ChiaFarmer K) where
  env-Distinct : Distinct (map (λ e. e.name) (get_chia_env K farmer))
  unfolding get_chia_env
  env-Distinct = are_distinct-Distinct (map (λ e. e.name) (get_chia_env K farmer)) (ground arith)

  abbrev volumes_with : Volume → List Volume
  volumes_with root =
      record { name = "secret-ca"; source = secret farmer.spec.chia_config.ca_secret_name }
      ∷ record { name = "key"; source = secret farmer.spec.chia_config.secret_key_spec.name }
      ∷ root
      ∷ []

  pod_template-IsSound :
      (root : Volume)
      → root.name ≡ "chiaroot"
      → IsSound (get_common_labels K farmer []) (pod_template K farmer (volumes_with root)) []
  unfolding pod_template container_ports get_common_labels
  pod_template-IsSound root named = record {
    selects =
        component_labels-IsSubmap "chiafarmer-owner" farmer.meta.name
          (farmer.spec.additional_metadata.labels ∷ []);
    backed = (
      (head refl, (tail (head refl), (tail (tail (head (sym named))), tt))),
      ((tail (tail (head (sym named))), tt), tt),
    );
    volumes_distinct =
        rw named (are_distinct-Distinct ("secret-ca" ∷ "key" ∷ "chiaroot" ∷ []) refl);
    paths_distinct =
        (are_distinct-Distinct ("/chia-ca" ∷ "/key" ∷ "/chia-data" ∷ []) refl, ((tt, tt), tt));
    env_distinct = (env-Distinct, ((tt, tt), tt));
    ports_distinct = are_distinct-Distinct ("daemon" ∷ "peers" ∷ "rpc" ∷ "metrics" ∷ []) refl;
  }

  get_chia_volumes-eq :
      ¬ PanicsOn farmer.spec.storage
      → get_chia_volumes K farmer ≡ value (volumes_with (root_volume farmer.spec.storage))
  unfolding get_chia_volumes
  get_chia_volumes-eq h = rw (chia_root_volume-eq farmer.spec.storage h)

  abbrev deployment : Deployment K
  deployment = record {
    meta = object_meta K farmer "-farmer" (farmer.spec.additional_metadata.labels ∷ []);
    match_labels = get_common_labels K farmer [];
    template = pod_template K farmer (volumes_with (root_volume farmer.spec.storage));
  }

  base-IsRouted :
      (vs : List Volume) → IsRouted (assemble_base_service K farmer) (pod_template K farmer vs)
  unfolding assemble_base_service pod_template
  base-IsRouted vs = record {
    selects = λ k v h. h;
    reaches =
        service_ports-reach (pod_template K farmer vs) farmer_port farmer_rpc_port _ (head refl)
          refl;
  }

  exporter-IsRouted :
      (vs : List Volume)
      → IsRouted (assemble_chia_exporter_service K farmer) (pod_template K farmer vs)
  unfolding assemble_chia_exporter_service pod_template
  exporter-IsRouted vs = record {
    selects = λ k v h. h;
    reaches = metrics_ports-reach (pod_template K farmer vs) _ _ _ _ (tail (head refl));
  }

  -- Unless a claim for CHIA_ROOT is configured with no host path, the Deployment is assembled; its
  -- selector fits its pods, every mount of a container has a volume, and no volume, mount path of a
  -- container, variable of a container or port name is taken twice. Both services select the pods,
  -- and each of their ports is open there under its target's name, with the same number.
  pub farmer_deployment-IsSound :
      ¬ PanicsOn farmer.spec.storage
      → (d : Deployment K) × (assemble_deployment K farmer ≡ value d)
        × IsSound d.match_labels d.template []
        × IsRouted (assemble_base_service K farmer) d.template
        × IsRouted (assemble_chia_exporter_service K farmer) d.template
  unfolding assemble_deployment
  farmer_deployment-IsSound h = (
    deployment,
    rw (get_chia_volumes-eq h),
    pod_template-IsSound _ (name-root_volume farmer.spec.storage),
    base-IsRouted _,
    exporter-IsRouted _,
  )

  -- With a claim and no host path the assembly panics.
  pub farmer_deployment-panics :
      PanicsOn farmer.spec.storage → assemble_deployment K farmer ≡ panic nil_dereference
  unfolding assemble_deployment get_chia_volumes
  farmer_deployment-panics h = rw (chia_root_volume-panics farmer.spec.storage h)
