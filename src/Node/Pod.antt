-- ===== src/Node/Pod.antt =====
-- The workload of a ChiaNode and the services in front of it.
use chia_opera.Base.{
  ◌≡◌, refl, ◌≢◌, String, ◌<>◌, Option, some, none, List, [], ◌∷◌, ◌++◌, map, arith, value, panic,
  bad_quantity, All, Distinct, are_distinct-Distinct, head, tail, stem_cancel, nth, ne_of_nth,
  bind_eval-eq-value, sym, ◌∙◌,
}
use chia_opera.Kube.{Kube, Volume, PersistentVolumeClaim, StatefulSet, Service}
use chia_opera.Api.Common.{PersistentVolumeClaimConfig, HostPathVolumeConfig}
use chia_opera.Api.Node.{ChiaNode}
use chia_opera.Common.{service_ports, container_ports, root_claim, root_host_path}
use chia_opera.Common.Labels.{component_labels-IsSubmap}
use chia_opera.Common.Ports.{service_ports-reach, metrics_ports-reach}
use chia_opera.Workload.{IsRouted, IsSound}
use chia_opera.Node.{
  node_rpc_port, object_meta, get_common_labels, get_full_node_port, get_chia_node_env,
  get_chia_volume_mounts, get_chia_volumes_and_templates, root_volumes_and_templates, ca_volume,
  claim_template, pod_template, assemble_base_service, assemble_internal_service,
  assemble_headless_service, assemble_chia_exporter_service, assemble_statefulset, statefulset_of,
}

-- The request of the claim for CHIA_ROOT, if there is one, is a quantity.
abbrev pub HasQuantity : (K : Kube) → Option PersistentVolumeClaimConfig → Type 0
HasQuantity K none = Unit
HasQuantity K (some claim) = K.parse_quantity claim.resource_request ≢ none

-- It is not.
abbrev pub IsNoQuantity : (K : Kube) → Option PersistentVolumeClaimConfig → Type 0
IsNoQuantity K none = ⊥
IsNoQuantity K (some claim) = K.parse_quantity claim.resource_request ≡ none

module _ (K : Kube) where
  claim-panics :
      (ca : Volume) (claim : Option PersistentVolumeClaimConfig)
      (host : Option HostPathVolumeConfig)
      → IsNoQuantity K claim
      → root_volumes_and_templates K ca claim host ≡ panic bad_quantity
  unfolding root_volumes_and_templates claim_template
  claim-panics ca none host h = absurd h
  claim-panics ca (some claim) host h = rw h

  -- Then the assembly panics.
  pub node_statefulset-panics :
      (node : ChiaNode K)
      → IsNoQuantity K (root_claim node.spec.storage)
      → assemble_statefulset K node ≡ panic bad_quantity
  unfolding assemble_statefulset get_chia_volumes_and_templates
  node_statefulset-panics node h = rw (
      claim-panics (ca_volume K node) (root_claim node.spec.storage)
        (root_host_path node.spec.storage) h)

module _ (K : Kube) (node : ChiaNode K) where
  env-Distinct : Distinct (map (λ e. e.name) (get_chia_node_env K node))
  unfolding get_chia_node_env
  env-Distinct = are_distinct-Distinct (map (λ e. e.name) (get_chia_node_env K node)) (ground arith)

  abbrev pub services : List Service
  services =
      assemble_base_service K node
      ∷ assemble_internal_service K node
      ∷ assemble_headless_service K node
      ∷ assemble_chia_exporter_service K node
      ∷ []

  -- A service with the pods' labels and the three ports of the chia container.
  component-IsRouted :
      (vs : List Volume) (s : Service)
      → s.selector ≡ get_common_labels K node (node.spec.additional_metadata.labels ∷ [])
      → s.ports ≡ service_ports (get_full_node_port K node) node_rpc_port
      → IsRouted s (pod_template K node vs)
  unfolding pod_template
  component-IsRouted vs s selector ports = record {
    selects = λ k v h. rw selector at h;
    reaches = rw ports (
        service_ports-reach (pod_template K node vs) (get_full_node_port K node) node_rpc_port _
          (head refl) refl);
  }

  services-IsRouted : (vs : List Volume) → All (λ s. IsRouted s (pod_template K node vs)) services
  unfolding assemble_base_service assemble_internal_service assemble_headless_service
      assemble_chia_exporter_service pod_template
  services-IsRouted vs = (
    component-IsRouted vs (assemble_base_service K node) refl refl,
    (
      component-IsRouted vs (assemble_internal_service K node) refl refl,
      (
        component-IsRouted vs (assemble_headless_service K node) refl refl,
        (
          record {
            selects = λ k v h. h;
            reaches = metrics_ports-reach (pod_template K node vs) _ _ _ _ (tail (head refl));
          },
          tt,
        ),
      ),
    ),
  )

  -- CHIA_ROOT is a volume of the pod or a claim template, and never both.
  IsRooted : List Volume × List (PersistentVolumeClaim K) → Type 0
  IsRooted (vs, templates) =
      map (λ v. v.name) vs ++ map (λ t. t.name) templates ≡ "secret-ca" ∷ "chiaroot" ∷ []

  claim_template-eq :
      (claim : PersistentVolumeClaimConfig) (o : Option K.Quantity)
      → o ≢ none
      → (t : PersistentVolumeClaim K) × (claim_template K claim o ≡ value (t ∷ []))
        × (t.name ≡ "chiaroot")
  unfolding claim_template
  claim_template-eq claim none h = absurd (h refl)
  claim_template-eq claim (some q) h = (_, refl, refl)

  root-IsRooted :
      (claim : Option PersistentVolumeClaimConfig) (host : Option HostPathVolumeConfig)
      → HasQuantity K claim
      → (r : List Volume × List (PersistentVolumeClaim K)) × (root_volumes_and_templates K
            (ca_volume K node)
            claim
            host
          ≡ value r)
        × IsRooted r
  unfolding root_volumes_and_templates ca_volume IsRooted
  root-IsRooted none none h = (_, refl, refl)
  root-IsRooted none (some host) h = (_, refl, refl)
  root-IsRooted (some claim) host h =
      let (t, e, named) = claim_template-eq claim (K.parse_quantity claim.resource_request) h in
      ((ca_volume K node ∷ [], t ∷ []), rw e, rw named)

  pod_template-IsSound :
      (r : List Volume × List (PersistentVolumeClaim K))
      → IsRooted r
      → IsSound (get_common_labels K node []) (pod_template K node r.0) (map (λ t. t.name) r.1)
  unfolding pod_template container_ports get_common_labels get_chia_volume_mounts IsRooted
  pod_template-IsSound r rooted = record {
    selects =
        component_labels-IsSubmap "chianode-owner" node.meta.name
          (node.spec.additional_metadata.labels ∷ []);
    backed = rw rooted ((head refl, (tail (head refl), tt)), ((tail (head refl), tt), tt));
    volumes_distinct = rw rooted (are_distinct-Distinct ("secret-ca" ∷ "chiaroot" ∷ []) refl);
    paths_distinct = (are_distinct-Distinct ("/chia-ca" ∷ "/chia-data" ∷ []) refl, ((tt, tt), tt));
    env_distinct = (env-Distinct, ((tt, tt), tt));
    ports_distinct = are_distinct-Distinct ("daemon" ∷ "peers" ∷ "rpc" ∷ "metrics" ∷ []) refl;
  }

  -- Unless the claim for CHIA_ROOT requests what is no quantity, the StatefulSet is assembled; its
  -- selector fits its pods, every mount of a container has a volume or a claim template, and no name
  -- of these, mount path of a container, variable of a container or port name is taken twice. The
  -- four services select the pods, and each of their ports is open there under its target's name,
  -- with the same number.
  pub node_statefulset-IsSound :
      HasQuantity K (root_claim node.spec.storage)
      → (s : StatefulSet K) × (assemble_statefulset K node ≡ value s)
        × IsSound s.match_labels s.template (map (λ t. t.name) s.volume_claim_templates)
        × All (λ service. IsRouted service s.template) services
  unfolding assemble_statefulset statefulset_of
  node_statefulset-IsSound h =
      let (r, e, rooted) =
        root-IsRooted (root_claim node.spec.storage) (root_host_path node.spec.storage) h in
      (statefulset_of K node r, rw e, pod_template-IsSound r rooted, services-IsRouted r.0)

  -- The governing service that the StatefulSet names is none of the services that the controller
  -- makes for the node.
  pub service_name-ne-services :
      (s : StatefulSet K)
      → assemble_statefulset K node ≡ value s
      → All (λ service. s.service_name ≢ service.meta.name) services
  unfolding assemble_statefulset statefulset_of object_meta nth assemble_base_service
      assemble_internal_service assemble_headless_service assemble_chia_exporter_service
  service_name-ne-services s h =
      let (r, _, e) =
        bind_eval-eq-value (get_chia_volumes_and_templates K node)
          (λ r. value (statefulset_of K node r)) h in
      let named : s.service_name ≡ node.meta.name <> "-headless" = cc e in
      let other : (suffix : String)
          → nth 1 suffix ≡ some b'n'
          → s.service_name ≢ node.meta.name <> suffix =
        λ suffix n c.
          ne_of_nth 1 "-headless" suffix refl n (omega arith)
            (stem_cancel node.meta.name "-headless" suffix (sym named ∙ c)) in
      (other _ refl, (other _ refl, (other _ refl, (other _ refl, tt))))
