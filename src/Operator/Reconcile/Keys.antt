-- ===== src/Operator/Reconcile/Keys.antt =====
-- The objects that an instance asks for, as integrity-shield-operator/resources names them.
use integrity_shield.Base.{Str, bytes, Bool, List, [], ◌∷◌, ◌++◌, if◌then◌else◌}
use integrity_shield.Operator.Objects.{
  Kind, custom_resource_definition, cluster_role, cluster_role_binding, pod_security_policy,
  config_map, service_account, role, role_binding, secret, service, deployment,
}
use integrity_shield.Operator.Types.{IntegrityShield}

-- The kind, the namespace and the name.
abbrev pub Key : Type 0
Key = Kind × Str × Str

module _ (instance : IntegrityShield) where
  abbrev ns : Str
  ns = instance.namespace

  unfoldable pub common_keys : List Key
  common_keys =
      (pod_security_policy, ns, instance.spec.security.pod_security_policy_name)
      ∷ (config_map, ns, instance.spec.request_handler_config_name)
      ∷ (service_account, ns, instance.spec.security.server_service_account_name)
      ∷ (role, ns, instance.spec.security.server_role)
      ∷ (role_binding, ns, instance.spec.security.server_role_binding)
      ∷ (cluster_role, ns, instance.spec.security.server_role)
      ∷ (cluster_role_binding, ns, instance.spec.security.server_role_binding)
      ∷ []

  unfoldable pub observer_keys : List Key
  observer_keys =
      (custom_resource_definition, ns, bytes "verifyresourcestatuses.apis.integrityshield.io")
      ∷ (config_map, ns, instance.spec.observer.observer_config_name)
      ∷ (service_account, ns, instance.spec.security.observer_service_account_name)
      ∷ (cluster_role, ns, instance.spec.security.observer_role)
      ∷ (cluster_role_binding, ns, instance.spec.security.observer_role_binding)
      ∷ (deployment, ns, instance.spec.observer.name)
      ∷ []

  unfoldable pub gatekeeper_keys : List Key
  gatekeeper_keys =
      (secret, ns, instance.spec.server_tls_secret_name)
      ∷ (deployment, ns, instance.spec.server.name)
      ∷ (service, ns, instance.spec.api_service_name)
      ∷ []

  unfoldable pub admission_keys : List Key
  admission_keys =
      (custom_resource_definition, ns, bytes "manifestintegrityprofiles.apis.integrityshield.io")
      ∷ (config_map, ns, instance.spec.admission_controller_config_name)
      ∷ (secret, ns, instance.spec.webhook_server_tls_secret_name)
      ∷ (deployment, ns, instance.spec.controller_container.name)
      ∷ (service, ns, instance.spec.webhook_service_name)
      ∷ []

  -- All objects but the last one, with the observer or without, and with Gatekeeper or with the
  -- admission controller.
  unfoldable pub installed_keys : Bool → Bool → List Key
  unfolding common_keys observer_keys gatekeeper_keys admission_keys
  installed_keys o g =
      common_keys
      ++ ((if o then observer_keys else []) ++ (if g then gatekeeper_keys else admission_keys))

  abbrev pub installed : List Key
  installed = installed_keys instance.spec.observer.enabled instance.spec.use_gatekeeper
