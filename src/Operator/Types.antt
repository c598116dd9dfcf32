-- ===== src/Operator/Types.antt =====
-- The custom resource IntegrityShield (integrity-shield-operator/api/v1alpha1).
use integrity_shield.Base.{ℕ, Str, bytes, Bool, List, Option}
use integrity_shield.Operator.Objects.{Labels, Raw, Rule}

abbrev pub default_ishield_webhook_timeout : ℕ
default_ishield_webhook_timeout = 10

abbrev pub cleanup_finalizer_name : Str
cleanup_finalizer_name = bytes "cleanup.finalizers.integrityshield.io"

pub record LogConfig : Type 0 where
  pub log_level : Str
  pub log_format : Str

pub record ServerContainer : Type 0 where
  pub name : Str
  pub selector_labels : Labels
  pub security_context : Option Raw
  pub image_pull_policy : Str
  pub image : Str
  pub port : ℕ
  pub resources : Raw

pub record ControllerContainer : Type 0 where
  pub name : Str
  pub selector_labels : Labels
  pub security_context : Option Raw
  pub image_pull_policy : Str
  pub image : Str
  pub port : ℕ
  pub resources : Raw
  pub log : LogConfig

pub record SecurityConfig : Type 0 where
  pub server_service_account_name : Str
  pub observer_service_account_name : Str
  pub observer_role : Str
  pub observer_role_binding : Str
  pub server_role : Str
  pub server_role_binding : Str
  pub pod_security_policy_name : Str
  pub pod_security_context : Option Raw

pub record Observer : Type 0 where
  pub enabled : Bool
  pub name : Str
  pub selector_labels : Labels
  pub image_pull_policy : Str
  pub image : Str
  pub security_context : Option Raw
  pub log_level : Str
  pub interval : Str
  pub observer_config_key : Str
  pub observer_config_name : Str
  pub observer_config : Str

pub record IntegrityShieldSpec : Type 0 where
  pub max_surge : Option Raw
  pub max_unavailable : Option Raw
  pub replica_count : Option ℕ
  pub meta_labels : Labels
  pub node_selector : Labels
  pub affinity : Option Raw
  pub tolerations : List Raw
  pub security : SecurityConfig
  -- request handler
  pub server : ServerContainer
  pub request_handler_config_key : Str
  pub request_handler_config_name : Str
  pub request_handler_config : Str
  pub api_service_name : Str
  pub api_service_port : ℕ
  -- admission controller
  pub controller_container : ControllerContainer
  pub admission_controller_config_key : Str
  pub admission_controller_config_name : Str
  pub admission_controller_config : Str
  -- observer
  pub observer : Observer
  pub server_tls_secret_name : Str
  pub webhook_server_tls_secret_name : Str
  pub webhook_service_name : Str
  pub webhook_config_name : Str
  pub webhook_namespaced_resource : Rule
  pub webhook_cluster_resource : Rule
  -- gatekeeper
  pub use_gatekeeper : Bool
  pub rego : Str

-- The parts of the metadata that the operator reads come first; `deletion_timestamp` is whether
-- one is set.
pub record IntegrityShield : Type 0 where
  pub api_version : Str
  pub kind : Str
  pub name : Str
  pub namespace : Str
  pub finalizers : List Str
  pub deletion_timestamp : Bool
  pub spec : IntegrityShieldSpec
