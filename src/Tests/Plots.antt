-- ===== src/Tests/Plots.antt =====
-- The plots of the sample harvester, its farmer and the network of the sample node.
use chia_opera.Base.{◌≡◌, refl, none, List, [], ◌∷◌, ◌⊎◌, ◌↔◌, itoa, numbered, value, Memᴰ}
use chia_opera.Kube.{
  Volume, VolumeMount, ServicePort, secret, host_path, persistent_volume_claim, empty_dir,
}
use chia_opera.Common.{chia_root_volume}
use chia_opera.Farmer
use chia_opera.Node.{mainnet_node_port, testnet_node_port, get_full_node_port, get_chia_node_env}
use chia_opera.Node.Network.{testnet_variable, testnet_agrees}
use chia_opera.Harvester.{get_chia_volumes, get_chia_volume_mounts, get_chia_env}
use chia_opera.Harvester.Mounted.{IsVolume, IsMount, plots_mounted}
use chia_opera.Harvester.Peer.{farmer_port_agrees}
use chia_opera.Tests.Data.{sample, plot_storage, node, farmer, harvester}

abbrev plot_volumes : List Volume
plot_volumes =
    record { name = "secret-ca"; source = secret "ca" }
    ∷ record { name = "chiaroot"; source = empty_dir }
    ∷ record { name = "pvc-plots-0"; source = persistent_volume_claim "data" }
    ∷ record { name = "pvc-plots-2"; source = persistent_volume_claim "data" }
    ∷ record { name = "hostpath-plots-0"; source = host_path "/srv/chia" }
    ∷ []

assembled : get_chia_volumes sample (harvester plot_storage) ≡ value plot_volumes
unfolding get_chia_volumes chia_root_volume numbered itoa
assembled = refl

plots_mounted_example :
    ((v : Volume)
      → Memᴰ v plot_volumes
        ↔ IsVolume sample
            (harvester plot_storage)
            (record { name = "chiaroot"; source = empty_dir })
            v)
    × ((m : VolumeMount)
        → Memᴰ m (get_chia_volume_mounts sample (harvester plot_storage))
          ↔ IsMount sample (harvester plot_storage) m)
unfolding chia_root_volume
plots_mounted_example =
    plots_mounted sample (harvester plot_storage) plot_volumes
      (record { name = "chiaroot"; source = empty_dir }) refl assembled

farmer_port_agrees_example :
    Memᴰ
      (record { name = "farmer_address"; value = "my-farmer" })
      (get_chia_env sample (harvester none))
    × (p : ServicePort) × Memᴰ p (Farmer.assemble_base_service sample (farmer none)).ports
    × (p.name ≡ "peers")
    × Memᴰ
        (record { name = "farmer_port"; value = itoa p.port })
        (get_chia_env sample (harvester none))
farmer_port_agrees_example = farmer_port_agrees sample (harvester none) (farmer none)

testnet_agrees_example :
    ((get_full_node_port sample (node none) ≡ mainnet_node_port)
      ⊎ (get_full_node_port sample (node none) ≡ testnet_node_port))
    × ((get_full_node_port sample (node none) ≡ testnet_node_port)
        ↔ Memᴰ testnet_variable (get_chia_node_env sample (node none)))
testnet_agrees_example = testnet_agrees sample (node none)
