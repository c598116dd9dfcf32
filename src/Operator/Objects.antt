-- ===== src/Operator/Objects.antt =====
-- The Kubernetes objects that the operator builds, with the fields that its code sets or reads. A
-- value of a library type that is only passed on is its text; a nil map, slice or pointer is
-- `none`, and a map is the list of its entries in the order of the keys.
use integrity_shield.Base.{ℕ, Str, Bool, List, [], Option, none}

abbrev pub Raw : Type 0
Raw = Str

abbrev pub Labels : Type 0
Labels = Option (List (Str × Str))

pub data Kind : Type 0 where
  custom_resource_definition cluster_role cluster_role_binding : Kind
  validating_webhook_configuration constraint_template pod_security_policy : Kind
  config_map service_account role role_binding secret service deployment event : Kind

pub record ObjectMeta : Type 0 where
  pub name : Str
  pub namespace : Str
  pub labels : Labels
  pub annotations : Labels
  -- what `SetControllerReference` fills in
  pub owner_references : List Str

abbrev pub object_meta : Str → Str → ObjectMeta
object_meta n ns = record {
  name = n;
  namespace = ns;
  labels = none;
  annotations = none;
  owner_references = [];
}

-- A ConfigMap, and a Secret with its type.
pub record ConfigMap : Type 0 where
  pub meta : ObjectMeta
  pub data_of : List (Str × Str)

pub record Secret : Type 0 where
  pub meta : ObjectMeta
  pub data_of : List (Str × Str)
  pub type_of : Str

pub record ServiceAccount : Type 0 where
  pub meta : ObjectMeta

pub record PolicyRule : Type 0 where
  pub api_groups : List Str
  pub resources : List Str
  pub verbs : List Str

-- A Role, and a ClusterRole.
pub record Role : Type 0 where
  pub meta : ObjectMeta
  pub rules : List PolicyRule

pub record Subject : Type 0 where
  pub kind : Str
  pub name : Str
  pub namespace : Str

pub record RoleRef : Type 0 where
  pub api_group : Str
  pub kind : Str
  pub name : Str

-- A RoleBinding, and a ClusterRoleBinding.
pub record RoleBinding : Type 0 where
  pub meta : ObjectMeta
  pub subjects : List Subject
  pub role_ref : RoleRef

pub record IdRange : Type 0 where
  pub min : ℕ
  pub max : ℕ

pub record PodSecurityPolicy : Type 0 where
  pub meta : ObjectMeta
  pub privileged : Bool
  pub fs_group : Str × List IdRange
  pub run_as_user : Str
  pub se_linux : Str
  pub supplemental_groups : Str × List IdRange
  pub volumes : List Str
  pub allowed_host_paths : List Str
  pub allowed_capabilities : List Str
  pub host_network : Bool
  pub host_ipc : Bool
  pub host_pid : Bool

-- The target port of a service that this code builds is always the name of a container's port.
pub record ServicePort : Type 0 where
  pub port : ℕ
  pub target_port : Str

pub record Service : Type 0 where
  pub meta : ObjectMeta
  pub ports : List ServicePort
  pub selector : Labels

pub record Rule : Type 0 where
  pub api_groups : List Str
  pub api_versions : List Str
  pub resources : List Str
  pub scope : Option Str

pub record RuleWithOperations : Type 0 where
  pub operations : List Str
  pub rule : Rule

pub record ServiceReference : Type 0 where
  pub name : Str
  pub namespace : Str
  pub path : Option Str

pub record ValidatingWebhook : Type 0 where
  pub name : Str
  pub service : ServiceReference
  pub ca_bundle : Str
  pub rules : List RuleWithOperations
  pub side_effects : Option Str
  pub timeout_seconds : Option ℕ
  pub admission_review_versions : List Str

pub record ValidatingWebhookConfiguration : Type 0 where
  pub meta : ObjectMeta
  pub webhooks : List ValidatingWebhook

pub record CrdNames : Type 0 where
  pub kind : Str
  pub plural : Str
  pub list_kind : Str
  pub singular : Str
  pub short_names : List Str

pub record CrdVersion : Type 0 where
  pub name : Str
  pub served : Bool
  pub storage : Bool
  pub preserve_unknown_fields : Bool

pub record CrdSpec : Type 0 where
  pub group : Str
  pub names : CrdNames
  pub scope : Str
  pub versions : List CrdVersion

pub record CustomResourceDefinition : Type 0 where
  pub meta : ObjectMeta
  pub spec : CrdSpec

pub record Target : Type 0 where
  pub target : Str
  pub rego : Str

pub record ConstraintTemplate : Type 0 where
  pub meta : ObjectMeta
  pub crd_kind : Str
  pub preserve_unknown_fields : Bool
  pub targets : List Target

pub record ObjectReference : Type 0 where
  pub namespace : Str
  pub api_version : Str
  pub kind : Str
  pub name : Str

pub record Event : Type 0 where
  pub meta : ObjectMeta
  pub involved_object : ObjectReference
  pub type_of : Str
  pub component : Str
  pub reporting_controller : Str
  pub reporting_instance : Str
  pub action : Str
  pub first_timestamp : ℕ
  pub last_timestamp : ℕ
  pub event_time : ℕ
  pub message : Str
  pub reason : Str
  pub count : ℕ
