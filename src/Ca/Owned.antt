-- ===== src/Ca/Owned.antt =====
-- The objects of a ChiaCA belong to it.
use chia_opera.Base.{String, refl, lookup, insert}
use chia_opera.Kube.{Kube}
use chia_opera.Api.Ca.{ChiaCa}
use chia_opera.Client.{Client, NamespacedName}
use chia_opera.Common.{get_common_labels}
use chia_opera.Plan.Owned.{IsOwned, AllOwned}
use chia_opera.Ca.{
  object_meta, get_chia_ca_common_labels, get_chia_ca_owner_reference, assemble_ca_job,
  assemble_ca_service_account, assemble_ca_role, assemble_ca_role_binding,
}
use chia_opera.Ca.Generate.{plan, job_plan}

module _ (K : Kube) (ca : ChiaCa) where
  object_meta-IsOwned : (name : String) → IsOwned ca.meta (object_meta ca name)
  unfolding object_meta get_chia_ca_common_labels get_chia_ca_owner_reference get_common_labels
      lookup insert
  object_meta-IsOwned name = record {
    in_namespace = refl;
    controlled = refl;
    managed = refl;
    of_instance = refl;
  }

  -- The account, the role, the role binding and the job lie in the namespace of the ChiaCA, have it as
  -- their one owner and controller, and are labelled as the operator's and with its name as their
  -- instance.
  pub ca-plan-AllOwned :
      (C : Client K) (req : NamespacedName)
      → AllOwned ca.meta (plan C req ca) × AllOwned ca.meta (job_plan C req ca)
  unfolding plan job_plan assemble_ca_job assemble_ca_service_account assemble_ca_role
      assemble_ca_role_binding
  ca-plan-AllOwned C req = (
    (object_meta-IsOwned _, (object_meta-IsOwned _, (object_meta-IsOwned _, tt))),
    (object_meta-IsOwned _, tt),
  )
