-- ===== src/Operator/Reconcile/Installed.antt =====
-- The passes of `Reconcile` over the objects of an instance that is not under deletion
-- (integrity-shield-operator/controllers).
use integrity_shield.Base.{Str, true, Bool-cases, List, [], ◌∷◌, ◌≡◌, refl, ap, inl, inr, ◌&&◌}
use integrity_shield.Operator.Objects.{
  Kind, custom_resource_definition, cluster_role, cluster_role_binding, pod_security_policy,
  config_map, service_account, role, role_binding, secret, service, deployment, Secret, ObjectMeta,
}
use integrity_shield.Operator.Types.{IntegrityShield}
use integrity_shield.Operator.Resources.Config.{
  build_req_config_for_ishield, build_ac_config_for_ishield, build_observer_config_for_ishield,
  build_tls_secret_for_ishield, build_api_tls_secret_for_ishield, ca_key, tls_cert_key,
  tls_private_key_key,
}
use integrity_shield.Operator.Resources.Deploy.{
  build_deployment_for_ishield_server, build_deployment_for_admission_controller,
  build_deployment_for_observer,
}
use integrity_shield.Operator.Resources.Roles.{
  build_service_account_for_ishield, build_service_account_for_observer,
  build_cluster_role_for_ishield, build_cluster_role_binding_for_ishield, build_role_for_ishield,
  build_cluster_role_for_observer, build_role_binding_for_ishield,
  build_cluster_role_binding_for_observer, build_pod_security_policy,
}
use integrity_shield.Operator.Resources.Webhook.{
  build_service_for_ishield, build_api_service_for_ishield,
}
use integrity_shield.Operator.Resources.Crd.{
  build_manifest_integrity_profile_crd, build_verify_resource_result_crd,
}
use integrity_shield.Operator.Client.{Client, ObjectOf, meta_of}
use integrity_shield.Operator.Handlers.{add_cert_values, has_key}
use integrity_shield.Operator.Reconcile.Laws.{ClientIsLawful, is_cluster_wide}
use integrity_shield.Operator.Reconcile.Entries.{Entry}
use integrity_shield.Operator.Reconcile.Kinds.{Keyed, plain_entry}
use integrity_shield.Operator.Reconcile.Crds.{crd_entry}
use integrity_shield.Operator.Reconcile.Deployments.{deployment_entry}

module _ {Cluster : Type 0} (C : Client Cluster) (law : ClientIsLawful C)
    (instance : IntegrityShield) where
  module _ (k : Kind) (built : Cluster → ObjectOf k) (n : Str)
      (named : (w : Cluster) → (meta_of k (built w)).name ≡ n)
      (placed : (w : Cluster) → (meta_of k (built w)).namespace ≡ instance.namespace) where
    -- The object is looked for in the instance's namespace, in its own, or in none.
    abbrev pub here : Keyed C k (λ _. instance.namespace) built instance.namespace n
    here = record { named = named; placed = placed; sought = λ _ _ _. refl }

    abbrev pub own : Keyed C k (λ o. (meta_of k o).namespace) built instance.namespace n
    own = record { named = named; placed = placed; sought = λ v _ p. ap (λ m. C.get v k m n) p }

    abbrev pub wide : is_cluster_wide k ≡ true → Keyed C k (λ _. []) built instance.namespace n
    wide c = record {
      named = named;
      placed = placed;
      sought = λ v _ _. law.any_namespace v k [] instance.namespace n c;
    }

    abbrev pub here_entry : Entry C
    here_entry =
        plain_entry C law instance k (λ _. instance.namespace) built instance.namespace n here

    abbrev pub own_entry : Entry C
    own_entry =
        plain_entry C law instance k (λ o. (meta_of k o).namespace) built instance.namespace n own

    abbrev pub wide_entry : is_cluster_wide k ≡ true → Entry C
    wide_entry c = plain_entry C law instance k (λ _. []) built instance.namespace n (wide c)

  pub add_cert_values-meta :
      (w : Cluster) (s : Secret) (name : Str) → (add_cert_values C w instance s name).meta ≡ s.meta
  unfolding add_cert_values
  add_cert_values-meta w s name =
      elim (Bool-cases (
        has_key ca_key s.data_of
        && (has_key tls_cert_key s.data_of && has_key tls_private_key_key s.data_of))) [
          | inl c ↦ rw c refl
          | inr c ↦ rw c refl
        ]

  unfoldable pub common_entries : List (Entry C)
  unfolding build_pod_security_policy build_req_config_for_ishield build_service_account_for_ishield
      build_role_for_ishield build_role_binding_for_ishield build_cluster_role_for_ishield
      build_cluster_role_binding_for_ishield
  common_entries =
      wide_entry pod_security_policy (λ _. build_pod_security_policy instance)
        instance.spec.security.pod_security_policy_name (λ _. refl) (λ _. refl) refl
      ∷ own_entry config_map (λ _. build_req_config_for_ishield instance)
          instance.spec.request_handler_config_name (λ _. refl) (λ _. refl)
      ∷ here_entry service_account (λ _. build_service_account_for_ishield instance)
          instance.spec.security.server_service_account_name (λ _. refl) (λ _. refl)
      ∷ here_entry role (λ _. build_role_for_ishield instance) instance.spec.security.server_role
          (λ _. refl) (λ _. refl)
      ∷ here_entry role_binding (λ _. build_role_binding_for_ishield instance)
          instance.spec.security.server_role_binding (λ _. refl) (λ _. refl)
      ∷ wide_entry cluster_role (λ _. build_cluster_role_for_ishield instance)
          instance.spec.security.server_role (λ _. refl) (λ _. refl) refl
      ∷ wide_entry cluster_role_binding (λ _. build_cluster_role_binding_for_ishield instance)
          instance.spec.security.server_role_binding (λ _. refl) (λ _. refl) refl
      ∷ []

  unfoldable pub observer_entries : List (Entry C)
  unfolding build_verify_resource_result_crd build_observer_config_for_ishield
      build_service_account_for_observer build_cluster_role_for_observer
      build_cluster_role_binding_for_observer build_deployment_for_observer
  observer_entries =
      crd_entry C law instance (build_verify_resource_result_crd instance) instance.namespace
        (build_verify_resource_result_crd instance).meta.name
        (wide custom_resource_definition (λ _. build_verify_resource_result_crd instance)
          (build_verify_resource_result_crd instance).meta.name (λ _. refl) (λ _. refl) refl)
      ∷ own_entry config_map (λ _. build_observer_config_for_ishield instance)
          instance.spec.observer.observer_config_name (λ _. refl) (λ _. refl)
      ∷ here_entry service_account (λ _. build_service_account_for_observer instance)
          instance.spec.security.observer_service_account_name (λ _. refl) (λ _. refl)
      ∷ wide_entry cluster_role (λ _. build_cluster_role_for_observer instance)
          instance.spec.security.observer_role (λ _. refl) (λ _. refl) refl
      ∷ wide_entry cluster_role_binding (λ _. build_cluster_role_binding_for_observer instance)
          instance.spec.security.observer_role_binding (λ _. refl) (λ _. refl) refl
      ∷ deployment_entry C law instance (build_deployment_for_observer instance) instance.namespace
          instance.spec.observer.name
          (here deployment (λ _. build_deployment_for_observer instance) instance.spec.observer.name
            (λ _. refl) (λ _. refl))
          refl
      ∷ []

  unfoldable pub gatekeeper_entries : List (Entry C)
  unfolding build_tls_secret_for_ishield build_deployment_for_ishield_server
      build_api_service_for_ishield
  gatekeeper_entries =
      here_entry secret
        (λ w.
          add_cert_values C w instance (build_tls_secret_for_ishield instance)
            instance.spec.api_service_name)
        instance.spec.server_tls_secret_name
        (λ w. ap (λ (m : ObjectMeta). m.name) (add_cert_values-meta w _ _))
        (λ w. ap (λ (m : ObjectMeta). m.namespace) (add_cert_values-meta w _ _))
      ∷ deployment_entry C law instance (build_deployment_for_ishield_server instance)
          instance.namespace instance.spec.server.name
          (here deployment (λ _. build_deployment_for_ishield_server instance)
            instance.spec.server.name (λ _. refl) (λ _. refl))
          refl
      ∷ here_entry service (λ _. build_api_service_for_ishield instance)
          instance.spec.api_service_name (λ _. refl) (λ _. refl)
      ∷ []

  unfoldable pub admission_entries : List (Entry C)
  unfolding build_manifest_integrity_profile_crd build_ac_config_for_ishield
      build_api_tls_secret_for_ishield build_deployment_for_admission_controller
      build_service_for_ishield
  admission_entries =
      crd_entry C law instance (build_manifest_integrity_profile_crd instance) instance.namespace
        (build_manifest_integrity_profile_crd instance).meta.name
        (wide custom_resource_definition (λ _. build_manifest_integrity_profile_crd instance)
          (build_manifest_integrity_profile_crd instance).meta.name (λ _. refl) (λ _. refl) refl)
      ∷ own_entry config_map (λ _. build_ac_config_for_ishield instance)
          instance.spec.admission_controller_config_name (λ _. refl) (λ _. refl)
      ∷ here_entry secret
          (λ w.
            add_cert_values C w instance (build_api_tls_secret_for_ishield instance)
              instance.spec.webhook_service_name)
          instance.spec.webhook_server_tls_secret_name
          (λ w. ap (λ (m : ObjectMeta). m.name) (add_cert_values-meta w _ _))
          (λ w. ap (λ (m : ObjectMeta). m.namespace) (add_cert_values-meta w _ _))
      ∷ deployment_entry C law instance (build_deployment_for_admission_controller instance)
          instance.namespace instance.spec.controller_container.name
          (here deployment (λ _. build_deployment_for_admission_controller instance)
            instance.spec.controller_container.name (λ _. refl) (λ _. refl))
          refl
      ∷ here_entry service (λ _. build_service_for_ishield instance)
          instance.spec.webhook_service_name (λ _. refl) (λ _. refl)
      ∷ []
