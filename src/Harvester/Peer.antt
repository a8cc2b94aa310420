-- ===== src/Harvester/Peer.antt =====
-- The farmer that a harvester is told of: getChiaEnv of
-- internal/controller/chiaharvester_controller.go and the services of a farmer.
use chia_opera.Base.{◌≡◌, refl, itoa, Memᴰ, head, tail}
use chia_opera.Kube.{Kube, ServicePort, EnvVar}
use chia_opera.Api.Farmer.{ChiaFarmer}
use chia_opera.Api.Harvester.{ChiaHarvester}
use chia_opera.Common.{service_ports}
use chia_opera.Common.Env.{Memᴰ-env_if_set, Memᴰ-env_testnet}
use chia_opera.Farmer.{assemble_base_service}
use chia_opera.Harvester.{get_chia_env}

module _ (K : Kube) (harvester : ChiaHarvester K) (farmer : ChiaFarmer K) where
  -- The chia container of a harvester is given the address of its resource, and as the farmer's port
  -- the decimal number under which the service of every ChiaFarmer shows its "peers" port.
  pub farmer_port_agrees :
      Memᴰ
        (record { name = "farmer_address"; value = harvester.spec.chia_config.farmer_address })
        (get_chia_env K harvester)
      × (p : ServicePort) × Memᴰ p (assemble_base_service K farmer).ports
      × (p.name ≡ "peers")
      × Memᴰ (record { name = "farmer_port"; value = itoa p.port }) (get_chia_env K harvester)
  unfolding assemble_base_service service_ports get_chia_env
  farmer_port_agrees =
      let behind : (e : EnvVar) → Memᴰ e _ → Memᴰ e (get_chia_env K harvester) = λ e m. tail (
        tail (
          tail (
            Memᴰ-env_testnet e _ harvester.spec.chia_config.testnet (
              Memᴰ-env_if_set e _ "TZ" harvester.spec.chia_config.timezone
                (Memᴰ-env_if_set e _ "log_level" harvester.spec.chia_config.log_level m))))) in
      (behind _ (tail (head refl)), _, tail (head refl), refl, behind _ (tail (tail (head refl))))
