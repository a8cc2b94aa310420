-- ===== src/Tests/Workloads.antt =====
-- The workloads of the sample resources.
use chia_opera.Base.{
  String, ◌≡◌, ◌≢◌, refl, true, none, some, List, [], ◌∷◌, map, All, value, ◌↔◌, StringMap,
  numbered, itoa,
}
use chia_opera.Kube.{StatefulSet, Deployment, persistent_volume_claim, empty_dir, secret}
use chia_opera.Api.Common.{StorageConfig, PersistentVolumeClaimConfig}
use chia_opera.Common.{chia_root_volume}
use chia_opera.Common.Storage.{chia_root_volume_ignores_claim}
use chia_opera.Workload.{IsRouted, IsSound}
use chia_opera.Node.{assemble_statefulset, statefulset_of, get_full_node_port}
use chia_opera.Node.Pod.{services, node_statefulset-IsSound, service_name-ne-services}
use chia_opera.Farmer
use chia_opera.Farmer.Pod.{farmer_deployment-IsSound}
use chia_opera.Wallet
use chia_opera.Wallet.Pod.{wallet_deployment-IsSound}
use chia_opera.Harvester
use chia_opera.Harvester.Pod.{harvester_deployment-IsSound}
use chia_opera.Ca.{
  assemble_ca_job, assemble_ca_service_account, assemble_ca_role, assemble_ca_role_binding,
}
use chia_opera.Ca.Generator.{IsBound, allows, generator-IsBound}
use chia_opera.Tests.Data.{
  sample, claim, directory, root_storage, plot_storage, node, farmer, wallet, harvester, ca,
}

-- The mount paths of the harvester: a nil claim takes its number along.
harvester_mounts :
    map (λ m. m.mount_path) (Harvester.get_chia_volume_mounts sample (harvester plot_storage))
    ≡ "/chia-ca" ∷ "/chia-data" ∷ "/plots/pvc-plots-0" ∷ "/plots/pvc-plots-2"
      ∷ "/plots/hostpath-plots-0" ∷ []
unfolding Harvester.get_chia_volume_mounts numbered itoa
harvester_mounts = refl

node_port : get_full_node_port sample (node none) ≡ 58444
unfolding get_full_node_port
node_port = refl

both_roots :
    chia_root_volume (root_storage (some (claim "1Gi")) (some directory))
    ≡ value (record { name = "chiaroot"; source = persistent_volume_claim "/srv/chia" })
unfolding chia_root_volume
both_roots = refl

node_statefulset-IsSound_example :
    (s : StatefulSet sample) × (assemble_statefulset sample
        (node (root_storage (some (claim "1Gi")) none))
      ≡ value s)
    × IsSound s.match_labels s.template (map (λ t. t.name) s.volume_claim_templates)
    × All
        (λ service. IsRouted service s.template)
        (services sample (node (root_storage (some (claim "1Gi")) none)))
node_statefulset-IsSound_example =
    node_statefulset-IsSound sample (node (root_storage (some (claim "1Gi")) none)) (λ e. cc)

abbrev temporary : StatefulSet sample
unfolding statefulset_of
temporary = statefulset_of sample (node none) (
  record { name = "secret-ca"; source = secret "ca" }
      ∷ record { name = "chiaroot"; source = empty_dir }
      ∷ [],
  [],
)

service_name-ne-services_example :
    All (λ service. temporary.service_name ≢ service.meta.name) (services sample (node none))
unfolding assemble_statefulset
service_name-ne-services_example = service_name-ne-services sample (node none) temporary refl

farmer_deployment-IsSound_example :
    (d : Deployment sample) × (Farmer.assemble_deployment sample
        (farmer (root_storage none (some directory)))
      ≡ value d)
    × IsSound d.match_labels d.template []
    × IsRouted
        (Farmer.assemble_base_service sample (farmer (root_storage none (some directory))))
        d.template
    × IsRouted
        (Farmer.assemble_chia_exporter_service sample (farmer (root_storage none (some directory))))
        d.template
farmer_deployment-IsSound_example =
    farmer_deployment-IsSound sample (farmer (root_storage none (some directory))) (λ e. e)

wallet_deployment-IsSound_example :
    (d : Deployment sample) × (Wallet.assemble_deployment sample
        (wallet (root_storage none (some directory)))
      ≡ value d)
    × IsSound d.match_labels d.template []
    × IsRouted
        (Wallet.assemble_base_service sample (wallet (root_storage none (some directory))))
        d.template
    × IsRouted
        (Wallet.assemble_chia_exporter_service sample (wallet (root_storage none (some directory))))
        d.template
wallet_deployment-IsSound_example =
    wallet_deployment-IsSound sample (wallet (root_storage none (some directory))) (λ e. e)

harvester_deployment-IsSound_example :
    (d : Deployment sample) × (Harvester.assemble_deployment sample (harvester plot_storage)
      ≡ value d)
    × IsSound d.match_labels d.template []
    × IsRouted (Harvester.assemble_base_service sample (harvester plot_storage)) d.template
    × IsRouted (Harvester.assemble_chia_exporter_service sample (harvester plot_storage)) d.template
harvester_deployment-IsSound_example =
    harvester_deployment-IsSound sample (harvester plot_storage) (λ e. e)

-- The user's labels of a common name, and of a new one.
abbrev additions : List StringMap
additions = (("app.kubernetes.io/name", "mine") ∷ ("team", "a") ∷ []) ∷ []

-- One claim and another, with the same directory beside them.
abbrev kept : StorageConfig
kept = record {
  chia_root =
      some (record {
        persistent_volume_claim = some (claim "1Gi");
        host_path_volume = some directory;
      });
  plots = none;
}

abbrev other_claim : PersistentVolumeClaimConfig
other_claim = record { claim_name = "other"; storage_class = "fast"; resource_request = "2Gi" }

abbrev changed : StorageConfig
changed = record {
  chia_root =
      some
        (record { persistent_volume_claim = some other_claim; host_path_volume = some directory });
  plots = none;
}

chia_root_volume_ignores_claim_example :
    chia_root_volume (some kept) ≡ chia_root_volume (some changed)
chia_root_volume_ignores_claim_example =
    chia_root_volume_ignores_claim kept changed (claim "1Gi") other_claim refl refl refl

generator-IsBound_example :
    IsBound
      (assemble_ca_job sample ca)
      (assemble_ca_service_account ca)
      (assemble_ca_role ca)
      (assemble_ca_role_binding ca)
    × ((group resource verb : String)
        → (allows (assemble_ca_role ca).rules group resource verb ≡ true)
          ↔ ((group ≡ "") × (resource ≡ "secrets") × (verb ≡ "create")))
generator-IsBound_example = generator-IsBound sample ca
