-- ===== src/Harvester/Pod.antt =====
-- The workload of a ChiaHarvester and the services in front of it.
use chia_opera.Base.{
  ◌≡◌, refl, sym, List, [], ◌∷◌, map, arith, value, panic, nil_dereference, subst, String, Option,
  ◌++◌, Memᴰ, All, All-of_map, All-Memᴰ, numbered, Distinct, are_distinct-Distinct, head, tail,
}
use chia_opera.Kube.{Kube, Container, Volume, secret, Deployment}
use mathlib.Core.List.{append-nil}
use chia_opera.Api.Common.{PersistentVolumeClaimConfig, HostPathVolumeConfig}
use chia_opera.Api.Harvester.{ChiaHarvester}
use chia_opera.Common.Labels.{component_labels-IsSubmap}
use chia_opera.Common.Ports.{service_ports-reach, metrics_ports-reach}
use chia_opera.Common.Storage.{
  PanicsOn, root_volume, chia_root_volume-eq, chia_root_volume-panics, name-root_volume,
}
use chia_opera.Workload.{IsBacked, IsRouted, IsSound}
use chia_opera.Harvester.Plots.{
  plot_names, name-plot_volumes, name-plot_mounts, path-plot_mounts, volume_names-Distinct,
  mount_paths-Distinct,
}
use chia_opera.Harvester.{
  plot_claims, plot_host_paths, pvc_plot_volume, host_path_plot_volume, get_chia_volume_mounts,
  harvester_port, harvester_rpc_port, object_meta, get_common_labels, get_chia_env,
  get_chia_volumes, pod_template, assemble_base_service, assemble_chia_exporter_service,
  assemble_deployment,
}

module _ (K : Kube) (harvester : ChiaHarvester K) where
  env-Distinct : Distinct (map (λ e. e.name) (get_chia_env K harvester))
  unfolding get_chia_env
  env-Distinct = are_distinct-Distinct (map (λ e. e.name) (get_chia_env K harvester)) (ground arith)

  abbrev claims : List (Option PersistentVolumeClaimConfig)
  claims = plot_claims harvester.spec.storage

  abbrev paths : List (Option HostPathVolumeConfig)
  paths = plot_host_paths harvester.spec.storage

  abbrev plot_volumes : List Volume
  plot_volumes =
      map pvc_plot_volume (numbered 0 claims) ++ map host_path_plot_volume (numbered 0 paths)

  abbrev volumes_with : Volume → List Volume
  volumes_with root =
      record { name = "secret-ca"; source = secret harvester.spec.chia_config.ca_secret_name }
      ∷ root
      ∷ plot_volumes

  get_chia_volumes-eq :
      ¬ PanicsOn harvester.spec.storage
      → get_chia_volumes K harvester ≡ value (volumes_with (root_volume harvester.spec.storage))
  unfolding get_chia_volumes
  get_chia_volumes-eq h = rw (chia_root_volume-eq harvester.spec.storage h)

  -- The names of the volumes, and of the mounts of the chia container.
  abbrev mount_names : List String
  mount_names = "secret-ca" ∷ "chiaroot" ∷ plot_names claims paths

  name-volumes_with :
      (root : Volume)
      → root.name ≡ "chiaroot"
      → map (λ v. v.name) (volumes_with root) ++ [] ≡ mount_names
  name-volumes_with root named = rw (append-nil, named, name-plot_volumes claims paths)

  name-get_chia_volume_mounts : map (λ m. m.name) (get_chia_volume_mounts K harvester) ≡ mount_names
  unfolding get_chia_volume_mounts
  name-get_chia_volume_mounts = rw (name-plot_mounts claims paths)

  get_chia_volume_mounts-backed :
      All (λ m. Memᴰ m.name mount_names) (get_chia_volume_mounts K harvester)
  get_chia_volume_mounts-backed =
      All-of_map (λ n. Memᴰ n mount_names) (λ m. m.name) (get_chia_volume_mounts K harvester)
        (rw name-get_chia_volume_mounts (All-Memᴰ mount_names))

  paths-Distinct : Distinct (map (λ m. m.mount_path) (get_chia_volume_mounts K harvester))
  unfolding get_chia_volume_mounts
  paths-Distinct = rw (path-plot_mounts claims paths) (mount_paths-Distinct claims paths)

  containers : Volume → List (Container K)
  unfolding pod_template
  containers root = (pod_template K harvester (volumes_with root)).spec.containers

  pod_template-IsSound :
      (root : Volume)
      → root.name ≡ "chiaroot"
      → IsSound (get_common_labels K harvester []) (pod_template K harvester (volumes_with root)) []
  unfolding containers get_common_labels
  pod_template-IsSound root named = record {
    selects =
        component_labels-IsSubmap "ChiaHarvester-owner" harvester.meta.name
          (harvester.spec.additional_metadata.labels ∷ []);
    backed =
        subst (λ names. All (IsBacked {K = K} names) (containers root))
          (sym (name-volumes_with root named))
          (get_chia_volume_mounts-backed, ((tail (head refl), tt), tt));
    volumes_distinct =
        subst (λ names. Distinct names) (sym (name-volumes_with root named))
          (volume_names-Distinct claims paths);
    paths_distinct = (paths-Distinct, ((tt, tt), tt));
    env_distinct = (env-Distinct, ((tt, tt), tt));
    ports_distinct = are_distinct-Distinct ("daemon" ∷ "peers" ∷ "rpc" ∷ "metrics" ∷ []) refl;
  }

  abbrev deployment : Deployment K
  deployment = record {
    meta = object_meta K harvester "-harvester" (harvester.spec.additional_metadata.labels ∷ []);
    match_labels = get_common_labels K harvester [];
    template = pod_template K harvester (volumes_with (root_volume harvester.spec.storage));
  }

  base-IsRouted :
      (vs : List Volume)
      → IsRouted (assemble_base_service K harvester) (pod_template K harvester vs)
  unfolding assemble_base_service pod_template
  base-IsRouted vs = record {
    selects = λ k v h. h;
    reaches =
        service_ports-reach (pod_template K harvester vs) harvester_port harvester_rpc_port _
          (head refl) refl;
  }

  exporter-IsRouted :
      (vs : List Volume)
      → IsRouted (assemble_chia_exporter_service K harvester) (pod_template K harvester vs)
  unfolding assemble_chia_exporter_service pod_template
  exporter-IsRouted vs = record {
    selects = λ k v h. h;
    reaches = metrics_ports-reach (pod_template K harvester vs) _ _ _ _ (tail (head refl));
  }

  -- Unless a claim for CHIA_ROOT is configured with no host path, the Deployment is assembled; its
  -- selector fits its pods, every mount of a container has a volume, and no volume, mount path of a
  -- container, variable of a container or port name is taken twice. Both services select the pods,
  -- and each of their ports is open there under its target's name, with the same number.
  pub harvester_deployment-IsSound :
      ¬ PanicsOn harvester.spec.storage
      → (d : Deployment K) × (assemble_deployment K harvester ≡ value d)
        × IsSound d.match_labels d.template []
        × IsRouted (assemble_base_service K harvester) d.template
        × IsRouted (assemble_chia_exporter_service K harvester) d.template
  unfolding assemble_deployment
  harvester_deployment-IsSound h = (
    deployment,
    rw (get_chia_volumes-eq h),
    pod_template-IsSound _ (name-root_volume harvester.spec.storage),
    base-IsRouted _,
    exporter-IsRouted _,
  )

  -- With a claim and no host path the assembly panics.
  pub harvester_deployment-panics :
      PanicsOn harvester.spec.storage → assemble_deployment K harvester ≡ panic nil_dereference
  unfolding assemble_deployment get_chia_volumes
  harvester_deployment-panics h = rw (chia_root_volume-panics harvester.spec.storage h)
