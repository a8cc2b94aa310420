-- ===== src/Ca/Generator.antt =====
-- The rights of the job that makes the CA secret.
use chia_opera.Base.{
  String, ◌≡◌, refl, true, false, Bool, List, [], ◌∷◌, ◌==◌, ◌&&◌, ◌||◌, ◌↔◌, arith, eq_iff,
}
use chia_opera.Kube.{Kube, Job, ServiceAccount, PolicyRule, Role, RoleBinding}
use chia_opera.Api.Ca.{ChiaCa}
use chia_opera.Ca.{
  assemble_ca_job, assemble_ca_service_account, assemble_ca_role, assemble_ca_role_binding,
}

abbrev contains : String → List String → Bool
contains x [] = false
contains x (y ∷ ys) = y == x || contains x ys

-- A rule of a role covers a request when its groups, resources and verbs do.
abbrev pub covers : PolicyRule → String → String → String → Bool
covers rule group resource verb =
    contains group rule.api_groups && (contains resource rule.resources && contains verb rule.verbs)

abbrev pub allows : List PolicyRule → String → String → String → Bool
allows [] group resource verb = false
allows (rule ∷ rules) group resource verb =
    covers rule group resource verb || allows rules group resource verb

-- The job's pods run under the account, and the binding gives that account the role, in the
-- account's namespace.
pub record IsBound {K : Kube} (job : Job K) (account : ServiceAccount) (role : Role)
    (binding : RoleBinding) : Type 0 where
  pub runs_as : job.template.spec.service_account_name ≡ account.meta.name
  pub binds : binding.subjects ≡ record { kind = "ServiceAccount"; name = account.meta.name } ∷ []
  pub grants : binding.role_ref ≡ record { kind = "Role"; name = role.meta.name }
  pub job_namespace : job.meta.namespace ≡ account.meta.namespace
  pub role_namespace : role.meta.namespace ≡ account.meta.namespace
  pub binding_namespace : binding.meta.namespace ≡ account.meta.namespace

module _ (K : Kube) (ca : ChiaCa) where
  -- The pods of the job run under the assembled account, which the binding gives the assembled role,
  -- all in the namespace of the ChiaCA; and that role allows a request exactly when it is to create
  -- secrets of the core group.
  pub generator-IsBound :
      IsBound
        (assemble_ca_job K ca)
        (assemble_ca_service_account ca)
        (assemble_ca_role ca)
        (assemble_ca_role_binding ca)
      × ((group resource verb : String)
          → (allows (assemble_ca_role ca).rules group resource verb ≡ true)
            ↔ ((group ≡ "") × (resource ≡ "secrets") × (verb ≡ "create")))
  unfolding assemble_ca_job assemble_ca_service_account assemble_ca_role assemble_ca_role_binding
  generator-IsBound = (
    record {
      runs_as = refl;
      binds = refl;
      grants = refl;
      job_namespace = refl;
      role_namespace = refl;
      binding_namespace = refl;
    },
    λ group resource verb. (
      λ h. ground (arith, eq_iff "" group, eq_iff "secrets" resource, eq_iff "create" verb),
      λ h. ground (arith, eq_iff "" group, eq_iff "secrets" resource, eq_iff "create" verb),
    ),
  )
