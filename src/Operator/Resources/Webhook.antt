-- ===== src/Operator/Resources/Webhook.antt =====
-- The services and the webhook's configuration (integrity-shield-operator/resources/webhook.go).
use integrity_shield.Base.{Str, bytes, [], ◌∷◌, ◌++◌, some}
use integrity_shield.Operator.Objects.{
  object_meta, Service, Rule, RuleWithOperations, ValidatingWebhookConfiguration,
}
use integrity_shield.Operator.Types.{IntegrityShield, default_ishield_webhook_timeout}

unfoldable pub build_service_for_ishield : IntegrityShield → Service
build_service_for_ishield cr = record {
  meta = object_meta cr.spec.webhook_service_name cr.namespace;
  ports = record { port = 443; target_port = bytes "validator-port" } ∷ [];
  selector = cr.spec.controller_container.selector_labels;
}

unfoldable pub build_api_service_for_ishield : IntegrityShield → Service
build_api_service_for_ishield cr = record {
  meta = object_meta cr.spec.api_service_name cr.namespace;
  ports = record { port = cr.spec.api_service_port; target_port = bytes "ishield-api" } ∷ [];
  selector = cr.spec.server.selector_labels;
}

abbrev pub with_scope : Rule → Str → Rule
with_scope rule s = record rule { scope = some s }

abbrev pub create_and_update : Rule → RuleWithOperations
create_and_update rule = record { operations = bytes "CREATE" ∷ bytes "UPDATE" ∷ []; rule = rule }

unfoldable pub build_validating_webhook_configuration_for_ishield :
    IntegrityShield → ValidatingWebhookConfiguration
build_validating_webhook_configuration_for_ishield cr = record {
  meta = object_meta cr.spec.webhook_config_name cr.namespace;
  webhooks =
      record {
        name = bytes "ac-server." ++ (cr.namespace ++ bytes ".svc");
        service = record {
          name = cr.spec.webhook_service_name;
          namespace = cr.namespace;
          path = some (bytes "/validate-resource");
        };
        ca_bundle = [];
        rules =
            create_and_update (with_scope cr.spec.webhook_namespaced_resource (bytes "Namespaced"))
            ∷ create_and_update (with_scope cr.spec.webhook_cluster_resource (bytes "Cluster"))
            ∷ [];
        side_effects = some (bytes "NoneOnDryRun");
        timeout_seconds = some default_ishield_webhook_timeout;
        admission_review_versions = bytes "v1beta1" ∷ [];
      }
      ∷ [];
}
