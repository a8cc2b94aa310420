-- ===== src/Ca.antt =====
-- internal/controller/chiaca_controller.go: the objects that are assembled for a ChiaCA.
pub mod Generator
pub mod Reconcile
pub mod Wait
pub mod Generate
pub mod Prepared
pub mod Owned
use chia_opera.Base.{
  String, ◌<>◌, none, some, true, Bool, List, [], ◌∷◌, ◌==◌, if◌then◌else◌, StringMap, insert,
}
use chia_opera.Kube.{
  Kube, OwnerReference, ObjectMeta, Container, Job, ServiceAccount, PolicyRule, Role, Subject,
  RoleRef, RoleBinding,
}
use chia_opera.Api.Ca.{ChiaCa}
use chia_opera.Common.{get_common_labels}

abbrev pub ca_generator_name_suffix : String
ca_generator_name_suffix = "-chiaca-generator"

unfoldable pub get_chia_ca_common_labels : ChiaCa → StringMap
unfolding get_common_labels
get_chia_ca_common_labels ca =
    insert "chiaca-owner" ca.meta.name
      (insert "app.kubernetes.io/instance" ca.meta.name (get_common_labels []))

unfoldable pub get_chia_ca_owner_reference : ChiaCa → List OwnerReference
get_chia_ca_owner_reference ca =
    record {
      api_version = ca.meta.api_version;
      kind = ca.meta.kind;
      name = ca.meta.name;
      uid = ca.meta.uid;
      controller = some true;
    }
    ∷ []

-- The `ObjectMeta` that the literals of this file share, at a name.
unfoldable pub object_meta : ChiaCa → String → ObjectMeta
unfolding get_chia_ca_common_labels get_chia_ca_owner_reference
object_meta ca name = record {
  name = name;
  namespace = ca.meta.namespace;
  labels = get_chia_ca_common_labels ca;
  annotations = [];
  owner_references = get_chia_ca_owner_reference ca;
}

unfoldable pub assemble_ca_service_account : ChiaCa → ServiceAccount
unfolding object_meta
assemble_ca_service_account ca = record {
  meta = object_meta ca (ca.meta.name <> ca_generator_name_suffix);
}

unfoldable pub assemble_ca_role : ChiaCa → Role
unfolding object_meta
assemble_ca_role ca = record {
  meta = object_meta ca (ca.meta.name <> ca_generator_name_suffix);
  rules = record { api_groups = "" ∷ []; resources = "secrets" ∷ []; verbs = "create" ∷ [] } ∷ [];
}

unfoldable pub assemble_ca_role_binding : ChiaCa → RoleBinding
unfolding object_meta
assemble_ca_role_binding ca = record {
  meta = object_meta ca (ca.meta.name <> ca_generator_name_suffix);
  subjects =
      record { kind = "ServiceAccount"; name = ca.meta.name <> ca_generator_name_suffix } ∷ [];
  role_ref = record { kind = "Role"; name = ca.meta.name <> ca_generator_name_suffix };
}

module _ (K : Kube) where
  generator_container : ChiaCa → Container K
  generator_container ca = record {
    name = "chiaca-generator";
    security_context = none;
    image = ca.spec.image;
    image_pull_policy = "";
    env =
        record { name = "NAMESPACE"; value = ca.meta.namespace }
        ∷ record { name = "SECRET_NAME"; value = ca.spec.secret }
        ∷ [];
    ports = [];
    liveness_probe = none;
    readiness_probe = none;
    startup_probe = none;
    resources = K.no_resources;
    volume_mounts = [];
  }

  unfoldable pub assemble_ca_job : ChiaCa → Job K
  unfolding object_meta generator_container
  assemble_ca_job ca = record {
    meta = object_meta ca ca.meta.name;
    template = record {
      labels = [];
      annotations = [];
      spec = record {
        restart_policy = "Never";
        service_account_name = ca.meta.name <> ca_generator_name_suffix;
        image_pull_secrets =
            if ca.spec.image_pull_secret == "" then [] else ca.spec.image_pull_secret ∷ [];
        containers = generator_container ca ∷ [];
        node_selector = [];
        volumes = [];
        security_context = none;
      };
    };
  }
