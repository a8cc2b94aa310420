-- ===== src/Plan/Owned.antt =====
-- To whom an object belongs: by its owner reference, which the garbage collector of the cluster and
-- the deletion of a resource go by, and by its labels.
use chia_opera.Base.{
  String, ◌≡◌, refl, true, some, List, [], ◌∷◌, All, StringMap, lookup, Eval, OnValue,
}
use chia_opera.Kube.{
  Kube, Object, ObjectMeta, service, deployment, stateful_set, service_account, role, role_binding,
  job,
}
use chia_opera.Api.Common.{ResourceMeta}
use chia_opera.Common.{component_labels, owner_reference}
use chia_opera.Common.Labels.{lookup-instance, lookup-managed_by}
use chia_opera.Plan.{Plan}

-- The object lies in the owner's namespace, has it as its one owner and controller, and is labelled
-- as the operator's and as the owner's.
pub record IsOwned (owner : ResourceMeta) (m : ObjectMeta) : Type 0 where
  pub in_namespace : m.namespace ≡ owner.namespace
  pub controlled :
      m.owner_references
      ≡ record {
        api_version = owner.api_version;
        kind = owner.kind;
        name = owner.name;
        uid = owner.uid;
        controller = some true;
      }
        ∷ []
  pub managed : lookup "app.kubernetes.io/managed-by" m.labels ≡ some "chia-operator"
  pub of_instance : lookup "app.kubernetes.io/instance" m.labels ≡ some owner.name

-- What the four component controllers write into an object's meta data.
pub component-IsOwned :
    (owner : ResourceMeta) (key name : String) (annotations : StringMap) (added : List StringMap)
    → IsOwned owner (record {
      name = name;
      namespace = owner.namespace;
      labels = component_labels key owner.name added;
      annotations = annotations;
      owner_references = owner_reference owner;
    })
unfolding owner_reference
component-IsOwned owner key name annotations added = record {
  in_namespace = refl;
  controlled = refl;
  managed = lookup-managed_by key owner.name added;
  of_instance = lookup-instance key owner.name added;
}

module _ {K : Kube} where
  abbrev pub meta_of : Object K → ObjectMeta
  meta_of (service o) = o.meta
  meta_of (deployment o) = o.meta
  meta_of (stateful_set o) = o.meta
  meta_of (service_account o) = o.meta
  meta_of (role o) = o.meta
  meta_of (role_binding o) = o.meta
  meta_of (job o) = o.meta

module _ {K : Kube} (owner : ResourceMeta) where
  -- What is assembled is owned.
  abbrev pub IsOwnedStep : Eval (Object K) → Type 0
  IsOwnedStep = OnValue (λ o. IsOwned owner (meta_of o))

  abbrev pub AllOwned : Plan K → Type 0
  AllOwned = All (λ step. IsOwnedStep step.1)
