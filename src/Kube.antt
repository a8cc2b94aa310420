-- ===== src/Kube.antt =====
-- The Kubernetes objects that the controllers in internal/controller assemble: of each API type the
-- fields that their composite literals set. A field that no literal sets keeps Go's zero value and
-- is left out. A map is the entries that it holds, so nil and the empty map are one.
use chia_opera.Base.{ℕ, String, Bool, Option, List, StringMap, ℤ}

-- An HTTPGet probe as `getChiaExporterContainer` writes it.
pub record HttpProbe : Type 0 where
  pub path : String
  pub port : ℕ
  pub failure_threshold : ℕ
  pub period_seconds : ℕ

-- The API types of which the code only passes values on, and what it calls to make such values.
pub record Kube : Type 1 where
  pub Probe : Type 0
  pub SecurityContext : Type 0
  pub PodSecurityContext : Type 0
  pub ResourceRequirements : Type 0
  pub Quantity : Type 0
  -- the zero `corev1.ResourceRequirements`
  pub no_resources : ResourceRequirements
  -- the `corev1.Probe` literal with an `HTTPGet` handler
  pub http_probe : HttpProbe → Probe
  -- `resource.ParseQuantity`; `resource.MustParse` panics where it fails
  pub parse_quantity : String → Option Quantity
  -- the literal `corev1.ResourceRequirements{Requests: {storage: q}}`
  pub storage_request : Quantity → ResourceRequirements

pub record OwnerReference : Type 0 where
  pub api_version : String
  pub kind : String
  pub name : String
  pub uid : String
  pub controller : Option Bool

pub record ObjectMeta : Type 0 where
  pub name : String
  pub namespace : String
  pub labels : StringMap
  pub annotations : StringMap
  pub owner_references : List OwnerReference

-- intstr.FromInt, intstr.FromString
pub data IntOrString : Type 0 where
  from_int : ℕ → IntOrString
  from_string : String → IntOrString

pub record ServicePort : Type 0 where
  pub port : ℕ
  pub target_port : IntOrString
  pub protocol : String
  pub name : String

pub record Service : Type 0 where
  pub meta : ObjectMeta
  pub service_type : String
  pub cluster_ip : String
  pub internal_traffic_policy : Option String
  pub ports : List ServicePort
  pub selector : StringMap

pub record EnvVar : Type 0 where
  pub name : String
  pub value : String

pub record ContainerPort : Type 0 where
  pub name : String
  pub container_port : ℕ
  pub protocol : String

pub record VolumeMount : Type 0 where
  pub name : String
  pub read_only : Bool
  pub mount_path : String

pub record Container (K : Kube) : Type 0 where
  pub name : String
  pub security_context : Option K.SecurityContext
  pub image : String
  pub image_pull_policy : String
  pub env : List EnvVar
  pub ports : List ContainerPort
  pub liveness_probe : Option K.Probe
  pub readiness_probe : Option K.Probe
  pub startup_probe : Option K.Probe
  pub resources : K.ResourceRequirements
  pub volume_mounts : List VolumeMount

-- Each literal sets one of the pointers of `corev1.VolumeSource`.
pub data VolumeSource : Type 0 where
  secret : String → VolumeSource
  host_path : String → VolumeSource
  persistent_volume_claim : String → VolumeSource
  empty_dir : VolumeSource

pub record Volume : Type 0 where
  pub name : String
  pub source : VolumeSource

pub record PersistentVolumeClaim (K : Kube) : Type 0 where
  pub name : String
  pub access_modes : List String
  pub storage_class_name : Option String
  pub resources : K.ResourceRequirements

pub record PodSpec (K : Kube) : Type 0 where
  pub restart_policy : String
  pub service_account_name : String
  pub image_pull_secrets : List String
  pub containers : List (Container K)
  pub node_selector : StringMap
  pub volumes : List Volume
  pub security_context : Option K.PodSecurityContext

pub record PodTemplateSpec (K : Kube) : Type 0 where
  pub labels : StringMap
  pub annotations : StringMap
  pub spec : PodSpec K

pub record Deployment (K : Kube) : Type 0 where
  pub meta : ObjectMeta
  pub match_labels : StringMap
  pub template : PodTemplateSpec K

pub record StatefulSet (K : Kube) : Type 0 where
  pub meta : ObjectMeta
  pub replicas : Option ℤ
  pub match_labels : StringMap
  pub service_name : String
  pub template : PodTemplateSpec K
  pub volume_claim_templates : List (PersistentVolumeClaim K)

pub record Job (K : Kube) : Type 0 where
  pub meta : ObjectMeta
  pub template : PodTemplateSpec K

pub record ServiceAccount : Type 0 where
  pub meta : ObjectMeta

pub record PolicyRule : Type 0 where
  pub api_groups : List String
  pub resources : List String
  pub verbs : List String

pub record Role : Type 0 where
  pub meta : ObjectMeta
  pub rules : List PolicyRule

pub record Subject : Type 0 where
  pub kind : String
  pub name : String

pub record RoleRef : Type 0 where
  pub kind : String
  pub name : String

pub record RoleBinding : Type 0 where
  pub meta : ObjectMeta
  pub subjects : List Subject
  pub role_ref : RoleRef

-- What `ReconcileResource` is called on.
pub data Object (K : Kube) : Type 0 where
  service : Service → Object K
  deployment : Deployment K → Object K
  stateful_set : StatefulSet K → Object K
  service_account : ServiceAccount → Object K
  role : Role → Object K
  role_binding : RoleBinding → Object K
  job : Job K → Object K
