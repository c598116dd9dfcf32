-- ===== src/Operator/Handlers.antt =====
-- The handlers for the objects that the operator installs
-- (integrity-shield-operator/controllers/integrityshield.go).
use integrity_shield.Base.{
  Str, bytes, ◌==◌, any, Bool, true, false, List, [], ◌∷◌, zero, suc, if◌then◌else◌, ◌&&◌, Option,
  none, some, ok, err, Error, returns, panics, map,
}
use integrity_shield.Operator.Objects.{
  custom_resource_definition, cluster_role, cluster_role_binding, constraint_template,
  pod_security_policy, config_map, service_account, role, role_binding, secret, service, deployment,
  Secret, ValidatingWebhook, CustomResourceDefinition,
}
use integrity_shield.Operator.Pods.{Deployment}
use integrity_shield.Operator.Types.{IntegrityShield}
use integrity_shield.Operator.Deletion.{Names, RecResult}
use integrity_shield.Operator.Creation.{
  create_or_update_config_map, create_or_update_service_account, create_or_update_role,
  create_or_update_role_binding, create_or_update_secret, create_or_update_service,
  create_or_update_cluster_role, create_or_update_cluster_role_binding,
  create_or_update_pod_security_policy, create_or_update_constraint_template, create_or_update_crd,
  create_or_update_deployment,
}
use integrity_shield.Operator.Certificates.{generate_cert}
use integrity_shield.Operator.Client.{Client, at}
use integrity_shield.Operator.Resources.Config.{
  build_req_config_for_ishield, build_ac_config_for_ishield, build_observer_config_for_ishield,
  build_tls_secret_for_ishield, build_api_tls_secret_for_ishield, tls_cert_key, tls_private_key_key,
  ca_key,
}
use integrity_shield.Operator.Resources.Deploy.{
  build_deployment_for_ishield_server, build_deployment_for_admission_controller,
  build_deployment_for_observer,
}
use integrity_shield.Operator.Resources.Compare.{equal_deployments}
use integrity_shield.Operator.Resources.Roles.{
  build_service_account_for_ishield, build_service_account_for_observer,
  build_cluster_role_for_ishield, build_cluster_role_binding_for_ishield, build_role_for_ishield,
  build_cluster_role_for_observer, build_role_binding_for_ishield,
  build_cluster_role_binding_for_observer, build_pod_security_policy,
}
use integrity_shield.Operator.Resources.Webhook.{
  build_service_for_ishield, build_api_service_for_ishield,
  build_validating_webhook_configuration_for_ishield,
}
use integrity_shield.Operator.Resources.Crd.{
  build_manifest_integrity_profile_crd, build_verify_resource_result_crd,
  build_constraint_template_for_ishield,
}

-- The names that the deletion reads.
abbrev pub built_names : Names
built_names = record {
  cluster_role_for_ishield = λ cr. (build_cluster_role_for_ishield cr).meta.name;
  cluster_role_binding_for_ishield = λ cr. (build_cluster_role_binding_for_ishield cr).meta.name;
  constraint_template_for_ishield = λ cr. (build_constraint_template_for_ishield cr).meta.name;
  validating_webhook_configuration_for_ishield =
      λ cr. (build_validating_webhook_configuration_for_ishield cr).meta.name;
  manifest_integrity_profile_crd = λ cr. (build_manifest_integrity_profile_crd cr).meta.name;
  pod_security_policy = λ cr. (build_pod_security_policy cr).meta.name;
  cluster_role_for_observer = λ cr. (build_cluster_role_for_observer cr).meta.name;
  cluster_role_binding_for_observer = λ cr. (build_cluster_role_binding_for_observer cr).meta.name;
  verify_resource_result_crd = λ cr. (build_verify_resource_result_crd cr).meta.name;
}

abbrev pub has_key : Str → List (Str × Str) → Bool
has_key key data_of = any (λ (e : Str × Str). e.0 == key) data_of

-- The assignment to a key that the map has.
abbrev pub assign : Str → Str → List (Str × Str) → List (Str × Str)
assign key value data_of = map (λ (e : Str × Str). if e.0 == key then (e.0, value) else e) data_of

abbrev pub value_at : Str → List (Str × Str) → Option Str
value_at key [] = none
value_at key (e ∷ rest) = let later = value_at key rest in if e.0 == key then some e.1 else later

-- The object that is there with the labels and the spec of the expected one.
abbrev pub with_spec : Deployment → Deployment → Deployment
with_spec found expected = record found {
  meta = record found.meta { labels = expected.meta.labels };
  spec = expected.spec;
}

abbrev pub with_meta :
    CustomResourceDefinition → CustomResourceDefinition → CustomResourceDefinition
with_meta expected found = record expected { meta = found.meta }

-- The answer of `EqualDeployments`, which panics on no deployment that is built here.
unfoldable pub same_deployment : Deployment → Deployment → Bool
same_deployment expected found = elim (equal_deployments expected found) [
  | returns b ↦ b
  | panics ↦ false
]

-- The first element of a slice that is not empty is changed in place.
abbrev pub with_first_bundle : Str → List ValidatingWebhook → List ValidatingWebhook
with_first_bundle cabundle [] = []
with_first_bundle cabundle (h ∷ hs) = record h { ca_bundle = cabundle } ∷ hs

module _ {Cluster : Type 0} (C : Client Cluster) where
  abbrev pub Handler : Type 0
  Handler = Cluster → (RecResult × Option Error) × Cluster

  unfoldable pub create_or_update_manifest_integrity_profile_crd : IntegrityShield → Handler
  create_or_update_manifest_integrity_profile_crd instance =
      create_or_update_crd (at C custom_resource_definition) (λ e f. C.same_crd_spec e.spec f.spec)
        with_meta instance (build_manifest_integrity_profile_crd instance)

  unfoldable pub create_or_update_verify_resource_result_crd : IntegrityShield → Handler
  create_or_update_verify_resource_result_crd instance =
      create_or_update_crd (at C custom_resource_definition) (λ e f. C.same_crd_spec e.spec f.spec)
        with_meta instance (build_verify_resource_result_crd instance)

  unfoldable pub create_or_update_request_handler_config : IntegrityShield → Handler
  create_or_update_request_handler_config instance =
      create_or_update_config_map (at C config_map) instance (build_req_config_for_ishield instance)

  unfoldable pub create_or_update_ac_config : IntegrityShield → Handler
  create_or_update_ac_config instance =
      create_or_update_config_map (at C config_map) instance (build_ac_config_for_ishield instance)

  unfoldable pub create_or_update_observer_config : IntegrityShield → Handler
  create_or_update_observer_config instance =
      create_or_update_config_map (at C config_map) instance
        (build_observer_config_for_ishield instance)

  unfoldable pub create_or_update_ishield_api_service_account : IntegrityShield → Handler
  create_or_update_ishield_api_service_account instance =
      create_or_update_service_account (at C service_account) instance
        (build_service_account_for_ishield instance)

  unfoldable pub create_or_update_observer_service_account : IntegrityShield → Handler
  create_or_update_observer_service_account instance =
      create_or_update_service_account (at C service_account) instance
        (build_service_account_for_observer instance)

  unfoldable pub create_or_update_cluster_role_binding_for_ishield : IntegrityShield → Handler
  create_or_update_cluster_role_binding_for_ishield instance =
      create_or_update_cluster_role_binding (at C cluster_role_binding) instance
        (build_cluster_role_binding_for_ishield instance)

  unfoldable pub create_or_update_observer_cluster_role_binding_for_ishield :
      IntegrityShield → Handler
  create_or_update_observer_cluster_role_binding_for_ishield instance =
      create_or_update_cluster_role_binding (at C cluster_role_binding) instance
        (build_cluster_role_binding_for_observer instance)

  unfoldable pub create_or_update_cluster_role_for_ishield : IntegrityShield → Handler
  create_or_update_cluster_role_for_ishield instance =
      create_or_update_cluster_role (at C cluster_role) instance
        (build_cluster_role_for_ishield instance)

  unfoldable pub create_or_update_observer_cluster_role_for_ishield : IntegrityShield → Handler
  create_or_update_observer_cluster_role_for_ishield instance =
      create_or_update_cluster_role (at C cluster_role) instance
        (build_cluster_role_for_observer instance)

  unfoldable pub create_or_update_role_binding_for_ishield : IntegrityShield → Handler
  create_or_update_role_binding_for_ishield instance =
      create_or_update_role_binding (at C role_binding) instance
        (build_role_binding_for_ishield instance)

  unfoldable pub create_or_update_role_for_ishield : IntegrityShield → Handler
  create_or_update_role_for_ishield instance =
      create_or_update_role (at C role) instance (build_role_for_ishield instance)

  unfoldable pub create_or_update_ishield_policy : IntegrityShield → Handler
  create_or_update_ishield_policy instance =
      create_or_update_pod_security_policy (at C pod_security_policy) instance
        (build_pod_security_policy instance)

  -- An error of the generation is only logged.
  unfoldable pub add_cert_values : Cluster → IntegrityShield → Secret → Str → Secret
  add_cert_values w instance expected service_name =
      let ((ca, tls_key, tls_cert), e?) =
        generate_cert C.crypto (C.now w) (C.random w) service_name instance.namespace in
      let found = expected.data_of in
      if has_key ca_key found && (has_key tls_cert_key found && has_key tls_private_key_key found)
      then record expected {
        data_of =
            assign ca_key ca
              (assign tls_private_key_key tls_key (assign tls_cert_key tls_cert found));
      }
      else expected

  unfoldable pub create_or_update_tls_secret : IntegrityShield → Handler
  unfolding add_cert_values
  create_or_update_tls_secret instance w =
      create_or_update_secret (at C secret) instance
        (add_cert_values w instance (build_tls_secret_for_ishield instance)
          instance.spec.api_service_name)
        w

  -- The secret that the next one creates.
  abbrev pub ac_tls_secret : Cluster → IntegrityShield → Secret
  ac_tls_secret w instance =
      add_cert_values w instance (build_api_tls_secret_for_ishield instance)
        instance.spec.webhook_service_name

  unfoldable pub create_or_update_ac_tls_secret : IntegrityShield → Handler
  unfolding add_cert_values
  create_or_update_ac_tls_secret instance w =
      create_or_update_secret (at C secret) instance (ac_tls_secret w instance) w

  unfoldable pub create_or_update_ishield_server_deployment : IntegrityShield → Handler
  create_or_update_ishield_server_deployment instance =
      create_or_update_deployment (at C deployment) same_deployment with_spec instance
        (build_deployment_for_ishield_server instance)

  unfoldable pub create_or_update_admission_controller_deployment : IntegrityShield → Handler
  create_or_update_admission_controller_deployment instance =
      create_or_update_deployment (at C deployment) same_deployment with_spec instance
        (build_deployment_for_admission_controller instance)

  unfoldable pub create_or_update_observer_deployment : IntegrityShield → Handler
  create_or_update_observer_deployment instance =
      create_or_update_deployment (at C deployment) same_deployment with_spec instance
        (build_deployment_for_observer instance)

  unfoldable pub create_or_update_webhook_service : IntegrityShield → Handler
  create_or_update_webhook_service instance =
      create_or_update_service (at C service) instance (build_service_for_ishield instance)

  unfoldable pub create_or_update_api_service : IntegrityShield → Handler
  create_or_update_api_service instance =
      create_or_update_service (at C service) instance (build_api_service_for_ishield instance)

  unfoldable pub create_or_update_manifest_integrity_constraint : IntegrityShield → Handler
  create_or_update_manifest_integrity_constraint instance =
      create_or_update_constraint_template (at C constraint_template) instance
        (build_constraint_template_for_ishield instance)

  unfoldable pub is_deployment_available : IntegrityShield → Cluster → Bool
  is_deployment_available instance w =
      let expected = build_deployment_for_admission_controller instance in
      elim (C.get w deployment expected.meta.namespace expected.meta.name) [
        | ok found ↦ elim (found.available_replicas) [ zero ↦ false | suc _ ↦ true ]
        | err _ ↦ false
      ]

  unfoldable pub is_gatekeeper_available : Cluster → Bool
  is_gatekeeper_available w =
      elim (C.get w custom_resource_definition []
        (bytes "constrainttemplates.templates.gatekeeper.sh")) [ ok _ ↦ true | err _ ↦ false ]
