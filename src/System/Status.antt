-- ===== src/System/Status.antt =====
-- The objects of a resource do not depend on its status, so that what a call writes into the status
-- changes nothing of what the next call applies.
use chia_opera.Base.{◌≡◌, refl, sym, ◌∙◌}
use chia_opera.Kube.{Kube}
use chia_opera.Api.Node.{ChiaNode, ChiaNodeSpec}
use chia_opera.Api.Farmer.{ChiaFarmer, ChiaFarmerSpec}
use chia_opera.Api.Wallet.{ChiaWallet, ChiaWalletSpec}
use chia_opera.Api.Harvester.{ChiaHarvester, ChiaHarvesterSpec}
use chia_opera.Api.Ca.{ChiaCa, ChiaCaSpec}
use chia_opera.Client.{
  Client, NamespacedName, ResourceKind, Resource, chia_node, chia_farmer, chia_wallet,
  chia_harvester, chia_ca,
}
use chia_opera.Node
use chia_opera.Farmer
use chia_opera.Wallet
use chia_opera.Harvester
use chia_opera.Ca
use chia_opera.System.{meta_of, plan_of}

abbrev pub Spec : Kube → ResourceKind → Type 0
Spec K chia_node = ChiaNodeSpec K
Spec K chia_farmer = ChiaFarmerSpec K
Spec K chia_wallet = ChiaWalletSpec K
Spec K chia_harvester = ChiaHarvesterSpec K
Spec K chia_ca = ChiaCaSpec

abbrev pub spec_of : (K : Kube) (k : ResourceKind) → Resource K k → Spec K k
spec_of K chia_node cr = cr.spec
spec_of K chia_farmer cr = cr.spec
spec_of K chia_wallet cr = cr.spec
spec_of K chia_harvester cr = cr.spec
spec_of K chia_ca cr = cr.spec

module _ {K : Kube} (C : Client K) (req : NamespacedName) where
  node_status :
      (c d : ChiaNode K)
      → plan_of C chia_node req c ≡ plan_of C chia_node req (record c { status = d.status })
  unfolding plan_of Node.Reconcile.plan Node.assemble_base_service
      Node.assemble_chia_exporter_service Node.object_meta Node.get_common_labels Node.pod_template
      Node.assemble_internal_service Node.assemble_headless_service Node.assemble_statefulset
      Node.statefulset_of Node.get_chia_volumes_and_templates Node.get_chia_node_env
      Node.chia_container Node.get_chia_volume_mounts
  node_status c d = refl

  farmer_status :
      (c d : ChiaFarmer K)
      → plan_of C chia_farmer req c ≡ plan_of C chia_farmer req (record c { status = d.status })
  unfolding plan_of Farmer.Reconcile.plan Farmer.assemble_base_service
      Farmer.assemble_chia_exporter_service Farmer.object_meta Farmer.get_common_labels
      Farmer.pod_template Farmer.assemble_deployment Farmer.get_chia_volumes Farmer.get_chia_env
      Farmer.chia_container
  farmer_status c d = refl

  wallet_status :
      (c d : ChiaWallet K)
      → plan_of C chia_wallet req c ≡ plan_of C chia_wallet req (record c { status = d.status })
  unfolding plan_of Wallet.Reconcile.plan Wallet.assemble_base_service
      Wallet.assemble_chia_exporter_service Wallet.object_meta Wallet.get_common_labels
      Wallet.pod_template Wallet.assemble_deployment Wallet.get_chia_volumes Wallet.get_chia_env
      Wallet.chia_container
  wallet_status c d = refl

  harvester_status :
      (c d : ChiaHarvester K)
      → plan_of C chia_harvester req c
        ≡ plan_of C chia_harvester req (record c { status = d.status })
  unfolding plan_of Harvester.Reconcile.plan Harvester.assemble_base_service
      Harvester.assemble_chia_exporter_service Harvester.object_meta Harvester.get_common_labels
      Harvester.pod_template Harvester.assemble_deployment Harvester.get_chia_volumes
      Harvester.get_chia_env Harvester.chia_container Harvester.get_chia_volume_mounts
  harvester_status c d = refl

  ca_status :
      (c d : ChiaCa)
      → plan_of C chia_ca req c ≡ plan_of C chia_ca req (record c { status = d.status })
  unfolding plan_of Ca.Generate.plan Ca.Generate.job_plan Ca.assemble_ca_service_account
      Ca.assemble_ca_role Ca.assemble_ca_role_binding Ca.assemble_ca_job Ca.object_meta
      Ca.get_chia_ca_common_labels Ca.get_chia_ca_owner_reference
  ca_status c d = refl

  -- For every kind, two resources of the same meta data and spec have the same plan, whatever their
  -- status.
  pub plan_of-spec :
      (k : ResourceKind) (c d : Resource K k)
      → meta_of K k c ≡ meta_of K k d
      → spec_of K k c ≡ spec_of K k d
      → plan_of C k req c ≡ plan_of C k req d
  plan_of-spec chia_node c d m s =
      (λ i. plan_of C chia_node req (record { meta = m i; spec = s i; status = c.status }))
      ∙ sym (node_status d c)
  plan_of-spec chia_farmer c d m s =
      (λ i. plan_of C chia_farmer req (record { meta = m i; spec = s i; status = c.status }))
      ∙ sym (farmer_status d c)
  plan_of-spec chia_wallet c d m s =
      (λ i. plan_of C chia_wallet req (record { meta = m i; spec = s i; status = c.status }))
      ∙ sym (wallet_status d c)
  plan_of-spec chia_harvester c d m s =
      (λ i. plan_of C chia_harvester req (record { meta = m i; spec = s i; status = c.status }))
      ∙ sym (harvester_status d c)
  plan_of-spec chia_ca c d m s =
      (λ i. plan_of C chia_ca req (record { meta = m i; spec = s i; status = c.status }))
      ∙ sym (ca_status d c)
