-- ===== src/Workload.antt =====
-- What Kubernetes asks of a workload and of the services in front of it, stated over the assembled
-- objects alone.
use chia_opera.Base.{
  String, ◌≡◌, List, [], ◌∷◌, ◌++◌, map, StringMap, IsSubmap, All, Distinct, Memᴰ,
}
use chia_opera.Kube.{
  Kube, IntOrString, from_int, from_string, ServicePort, Service, Container, ContainerPort,
  VolumeMount, PodTemplateSpec,
}

module _ {K : Kube} where
  -- Some container of the pod listens on the port under the name that the service aims at, with
  -- the number that the service shows.
  abbrev pub Reaches : PodTemplateSpec K → IntOrString → ServicePort → Type 0
  Reaches template (from_int n) p = p.port ≡ n
  Reaches template (from_string target) p =
      (c : Container K) × Memᴰ c template.spec.containers
      × (q : ContainerPort) × Memᴰ q c.ports
      × (q.name ≡ target)
      × (q.container_port ≡ p.port)
      × (q.protocol ≡ p.protocol)

  -- The service selects the pods, and each of its ports leads to a port of a container.
  pub record IsRouted (service : Service) (template : PodTemplateSpec K) : Type 0 where
    pub selects : IsSubmap service.selector template.labels
    pub reaches : All (λ p. Reaches template p.target_port p) service.ports

  abbrev pub volume_names : PodTemplateSpec K → List String
  volume_names template = map (λ v. v.name) template.spec.volumes

  -- A mount's name is that of a volume or of a claim template.
  abbrev pub IsBacked : List String → Container K → Type 0
  IsBacked names c = All (λ (m : VolumeMount). Memᴰ m.name names) c.volume_mounts

  abbrev pub all_ports : List (Container K) → List ContainerPort
  all_ports [] = []
  all_ports (c ∷ containers) = c.ports ++ all_ports containers

  -- The selector fits the pods; every mount has a volume; no name of a volume, a port or a variable
  -- and no mount path is taken twice.
  pub record IsSound (match_labels : StringMap) (template : PodTemplateSpec K)
      (claims : List String) : Type 0 where
    pub selects : IsSubmap match_labels template.labels
    pub backed : All (IsBacked (volume_names template ++ claims)) template.spec.containers
    pub volumes_distinct : Distinct (volume_names template ++ claims)
    pub paths_distinct :
        All (λ c. Distinct (map (λ m. m.mount_path) c.volume_mounts)) template.spec.containers
    pub env_distinct : All (λ c. Distinct (map (λ e. e.name) c.env)) template.spec.containers
    pub ports_distinct : Distinct (map (λ p. p.name) (all_ports template.spec.containers))
