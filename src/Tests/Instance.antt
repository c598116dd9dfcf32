-- ===== src/Tests/Instance.antt =====
-- An instance, as the tests of the operator use it.
use integrity_shield.Base.{bytes, true, false, [], ◌∷◌, none, some}
use integrity_shield.Operator.Objects.{Rule}
use integrity_shield.Operator.Types.{IntegrityShield}

abbrev any_rule : Rule
any_rule = record {
  api_groups = bytes "*" ∷ [];
  api_versions = bytes "*" ∷ [];
  resources = bytes "*" ∷ [];
  scope = none;
}

abbrev pub shield : IntegrityShield
shield = record {
  api_version = bytes "apis.integrityshield.io/v1alpha1";
  kind = bytes "IntegrityShield";
  name = bytes "shield";
  namespace = bytes "ns";
  finalizers = bytes "cleanup.finalizers.integrityshield.io" ∷ [];
  deletion_timestamp = false;
  spec = record {
    max_surge = none;
    max_unavailable = none;
    replica_count = some 1;
    meta_labels = none;
    node_selector = none;
    affinity = none;
    tolerations = [];
    security = record {
      server_service_account_name = bytes "server-sa";
      observer_service_account_name = bytes "observer-sa";
      observer_role = bytes "observer-role";
      observer_role_binding = bytes "observer-binding";
      server_role = bytes "role";
      server_role_binding = bytes "binding";
      pod_security_policy_name = bytes "policy";
      pod_security_context = none;
    };
    server = record {
      name = bytes "server";
      selector_labels = none;
      security_context = none;
      image_pull_policy = bytes "Always";
      image = bytes "server:1";
      port = 8080;
      resources = [];
    };
    request_handler_config_key = bytes "config.yaml";
    request_handler_config_name = bytes "request-handler-config";
    request_handler_config = [];
    api_service_name = bytes "api";
    api_service_port = 8123;
    controller_container = record {
      name = bytes "controller";
      selector_labels = none;
      security_context = none;
      image_pull_policy = bytes "Always";
      image = bytes "controller:1";
      port = 8123;
      resources = [];
      log = record { log_level = bytes "info"; log_format = bytes "json" };
    };
    admission_controller_config_key = bytes "config.yaml";
    admission_controller_config_name = bytes "controller-config";
    admission_controller_config = [];
    observer = record {
      enabled = true;
      name = bytes "observer";
      selector_labels = none;
      image_pull_policy = bytes "Always";
      image = bytes "observer:1";
      security_context = none;
      log_level = bytes "info";
      interval = bytes "5";
      observer_config_key = bytes "config.yaml";
      observer_config_name = bytes "observer-config";
      observer_config = [];
    };
    server_tls_secret_name = bytes "server-tls";
    webhook_server_tls_secret_name = bytes "webhook-tls";
    webhook_service_name = bytes "webhook";
    webhook_config_name = bytes "webhook-config";
    webhook_namespaced_resource = any_rule;
    webhook_cluster_resource = any_rule;
    use_gatekeeper = false;
    rego = [];
  };
}
