-- ===== src/Common/Ports.antt =====
-- Services and the containers behind them agree on the ports.
use chia_opera.Base.{ℕ, String, ◌≡◌, refl, Option, All, Memᴰ, head, tail}
use chia_opera.Kube.{Kube, Container, PodTemplateSpec, ContainerPort}
use chia_opera.Common.{service_ports, metrics_ports, container_ports, get_chia_exporter_container}
use chia_opera.Workload.{Reaches}

module _ {K : Kube} (template : PodTemplateSpec K) where
  pub service_ports-reach :
      (peers rpc : ℕ) (c : Container K)
      → Memᴰ c template.spec.containers
      → c.ports ≡ container_ports peers rpc
      → All (λ p. Reaches template p.target_port p) (service_ports peers rpc)
  unfolding service_ports container_ports
  service_ports-reach peers rpc c listed e =
      let listens : (q : ContainerPort) → Memᴰ q (container_ports peers rpc) → Memᴰ q c.ports =
        λ q m. rw e m in
      (
        (c, listed, _, listens _ (head refl), refl, refl, refl),
        (
          (c, listed, _, listens _ (tail (head refl)), refl, refl, refl),
          ((c, listed, _, listens _ (tail (tail (head refl))), refl, refl, refl), tt),
        ),
      )

  pub metrics_ports-reach :
      (image pull_policy : String) (sec_context : Option K.SecurityContext)
      (res_req : K.ResourceRequirements)
      → Memᴰ
          (get_chia_exporter_container K image sec_context pull_policy res_req)
          template.spec.containers
      → All (λ p. Reaches template p.target_port p) metrics_ports
  unfolding metrics_ports get_chia_exporter_container
  metrics_ports-reach image pull_policy sec_context res_req listed =
      ((_, listed, _, head refl, refl, refl, refl), tt)
