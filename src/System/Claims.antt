-- ===== src/System/Claims.antt =====
-- Which names the objects of a resource have: the resource's own, with a suffix that the kind of the
-- resource and the kind of the object tell.
use text.Mathlib.TextLemmas.{append-nil}
use chia_opera.Base.{
  String, ◌<>◌, ◌≡◌, refl, sym, ap, List, [], ◌∷◌, Memᴰ, head, tail, All, OnValue,
  assembled-OnValue,
}
use chia_opera.Kube.{Kube, ObjectMeta, stateful_set, deployment}
use chia_opera.Api.Common.{ResourceMeta}
use chia_opera.Client.{
  Client, NamespacedName, ResourceKind, Resource, chia_node, chia_farmer, chia_wallet,
  chia_harvester, chia_ca,
}
use chia_opera.Plan.{Plan}
use chia_opera.Plan.Keys.{
  ObjectKind, ObjectKey, key, services, deployments, stateful_sets, service_accounts, roles,
  role_bindings, jobs,
}
use chia_opera.Node
use chia_opera.Node.Owned as NodeOwned
use chia_opera.Farmer
use chia_opera.Farmer.Owned as FarmerOwned
use chia_opera.Wallet
use chia_opera.Wallet.Owned as WalletOwned
use chia_opera.Harvester
use chia_opera.Harvester.Owned as HarvesterOwned
use chia_opera.Ca
use chia_opera.System.{meta_of, plan_of}

-- By the kind of the object: who makes such objects, with which suffixes.
abbrev pub claims : ObjectKind → List (ResourceKind × String)
claims services =
    (chia_node, "-node")
    ∷ (chia_node, "-node-internal")
    ∷ (chia_node, "-node-headless")
    ∷ (chia_node, "-node-metrics")
    ∷ (chia_farmer, "-farmer")
    ∷ (chia_farmer, "-farmer-metrics")
    ∷ (chia_wallet, "-wallet")
    ∷ (chia_wallet, "-wallet-metrics")
    ∷ (chia_harvester, "-harvester")
    ∷ (chia_harvester, "-harvester-metrics")
    ∷ []
claims deployments =
    (chia_farmer, "-farmer") ∷ (chia_wallet, "-wallet") ∷ (chia_harvester, "-harvester") ∷ []
claims stateful_sets = (chia_node, "-node") ∷ []
claims service_accounts = (chia_ca, "-chiaca-generator") ∷ []
claims roles = (chia_ca, "-chiaca-generator") ∷ []
claims role_bindings = (chia_ca, "-chiaca-generator") ∷ []
claims jobs = (chia_ca, "") ∷ []

module _ (k : ResourceKind) (m : ResourceMeta) where
  abbrev pub IsClaimed : ObjectKey → Type 0
  IsClaimed j =
      (suffix : String) × Memᴰ (k, suffix) (claims j.kind)
      × (j.namespace ≡ m.namespace)
      × (j.name ≡ m.name <> suffix)

  abbrev pub AllClaimed : {K : Kube} → Plan K → Type 0
  AllClaimed = All (λ step. OnValue (λ o. IsClaimed (key o)) step.1)

module _ {K : Kube} (C : Client K) (req : NamespacedName) where
  node-AllClaimed :
      (cr : Resource K chia_node) → AllClaimed chia_node cr.meta (plan_of C chia_node req cr)
  unfolding plan_of Node.Reconcile.plan Node.object_meta Node.assemble_base_service
      Node.assemble_internal_service Node.assemble_headless_service
      Node.assemble_chia_exporter_service
  node-AllClaimed cr = (
    ("-node", head refl, refl, refl),
    (
      ("-node-internal", tail (head refl), refl, refl),
      (
        ("-node-headless", tail (tail (head refl)), refl, refl),
        (
          ("-node-metrics", tail (tail (tail (head refl))), refl, refl),
          (
            assembled-OnValue (λ o. IsClaimed chia_node cr.meta (key o)) stateful_set _
                (λ w e.
                  let same = NodeOwned.workload-meta K cr w e in
                  (
                    "-node",
                    head refl,
                    sym (ap (λ (m : ObjectMeta). m.namespace) same),
                    sym (ap (λ (m : ObjectMeta). m.name) same),
                  )),
            tt,
          ),
        ),
      ),
    ),
  )

  farmer-AllClaimed :
      (cr : Resource K chia_farmer) → AllClaimed chia_farmer cr.meta (plan_of C chia_farmer req cr)
  unfolding plan_of Farmer.Reconcile.plan Farmer.object_meta Farmer.assemble_base_service
      Farmer.assemble_chia_exporter_service
  farmer-AllClaimed cr = (
    ("-farmer", tail (tail (tail (tail (head refl)))), refl, refl),
    (
      ("-farmer-metrics", tail (tail (tail (tail (tail (head refl))))), refl, refl),
      (
        assembled-OnValue (λ o. IsClaimed chia_farmer cr.meta (key o)) deployment _
            (λ w e.
              let same = FarmerOwned.workload-meta K cr w e in
              (
                "-farmer",
                head refl,
                sym (ap (λ (m : ObjectMeta). m.namespace) same),
                sym (ap (λ (m : ObjectMeta). m.name) same),
              )),
        tt,
      ),
    ),
  )

  wallet-AllClaimed :
      (cr : Resource K chia_wallet) → AllClaimed chia_wallet cr.meta (plan_of C chia_wallet req cr)
  unfolding plan_of Wallet.Reconcile.plan Wallet.object_meta Wallet.assemble_base_service
      Wallet.assemble_chia_exporter_service
  wallet-AllClaimed cr = (
    ("-wallet", tail (tail (tail (tail (tail (tail (head refl)))))), refl, refl),
    (
      ("-wallet-metrics", tail (tail (tail (tail (tail (tail (tail (head refl))))))), refl, refl),
      (
        assembled-OnValue (λ o. IsClaimed chia_wallet cr.meta (key o)) deployment _
            (λ w e.
              let same = WalletOwned.workload-meta K cr w e in
              (
                "-wallet",
                tail (head refl),
                sym (ap (λ (m : ObjectMeta). m.namespace) same),
                sym (ap (λ (m : ObjectMeta). m.name) same),
              )),
        tt,
      ),
    ),
  )

  harvester-AllClaimed :
      (cr : Resource K chia_harvester)
      → AllClaimed chia_harvester cr.meta (plan_of C chia_harvester req cr)
  unfolding plan_of Harvester.Reconcile.plan Harvester.object_meta Harvester.assemble_base_service
      Harvester.assemble_chia_exporter_service
  harvester-AllClaimed cr = (
    ("-harvester", tail (tail (tail (tail (tail (tail (tail (tail (head refl)))))))), refl, refl),
    (
      (
        "-harvester-metrics",
        tail (tail (tail (tail (tail (tail (tail (tail (tail (head refl))))))))),
        refl,
        refl,
      ),
      (
        assembled-OnValue (λ o. IsClaimed chia_harvester cr.meta (key o)) deployment _
            (λ w e.
              let same = HarvesterOwned.workload-meta K cr w e in
              (
                "-harvester",
                tail (tail (head refl)),
                sym (ap (λ (m : ObjectMeta). m.namespace) same),
                sym (ap (λ (m : ObjectMeta). m.name) same),
              )),
        tt,
      ),
    ),
  )

  ca-AllClaimed : (cr : Resource K chia_ca) → AllClaimed chia_ca cr.meta (plan_of C chia_ca req cr)
  unfolding plan_of Ca.Generate.plan Ca.Generate.job_plan Ca.object_meta Ca.assemble_ca_job
      Ca.assemble_ca_service_account Ca.assemble_ca_role Ca.assemble_ca_role_binding
  ca-AllClaimed cr = (
    (Ca.ca_generator_name_suffix, head refl, refl, refl),
    (
      (Ca.ca_generator_name_suffix, head refl, refl, refl),
      (
        (Ca.ca_generator_name_suffix, head refl, refl, refl),
        (("", head refl, refl, sym (append-nil cr.meta.name)), tt),
      ),
    ),
  )

  pub plan_of-AllClaimed :
      (k : ResourceKind) (cr : Resource K k) → AllClaimed k (meta_of K k cr) (plan_of C k req cr)
  plan_of-AllClaimed chia_node cr = node-AllClaimed cr
  plan_of-AllClaimed chia_farmer cr = farmer-AllClaimed cr
  plan_of-AllClaimed chia_wallet cr = wallet-AllClaimed cr
  plan_of-AllClaimed chia_harvester cr = harvester-AllClaimed cr
  plan_of-AllClaimed chia_ca cr = ca-AllClaimed cr
