-- ===== src/Operator/Reconcile.antt =====
-- `Reconcile` (integrity-shield-operator/controllers/integrityshield_controller.go).
pub mod Steps
pub mod Rounds
pub mod Laws
pub mod Entries
pub mod Entry
pub mod Kinds
pub mod Crds
pub mod Deployments
pub mod Installed
pub mod Separate
pub mod Keys
pub mod Listing
pub mod Converges
pub mod References
pub mod Present
pub mod Removal
pub mod Additions
pub mod Webhooks
pub mod Last
pub mod Cleaned
use integrity_shield.Base.{
  Str, Bool, true, false, List, [], ◌∷◌, ◌++◌, if◌then◌else◌, Option, none, some, ok, err, Error,
  is_not_found,
}
use integrity_shield.Operator.Types.{IntegrityShield}
use integrity_shield.Operator.Deletion.{RecResult, no_requeue, delete_webhook, finalize}
use integrity_shield.Operator.Creation.{requeue_now}
use integrity_shield.Operator.Client.{Client, cluster_scoped}
use integrity_shield.Operator.Event.{create_or_update_webhook}
use integrity_shield.Operator.Handlers.{
  built_names, Handler, create_or_update_manifest_integrity_profile_crd,
  create_or_update_verify_resource_result_crd, create_or_update_request_handler_config,
  create_or_update_ac_config, create_or_update_observer_config,
  create_or_update_ishield_api_service_account, create_or_update_observer_service_account,
  create_or_update_cluster_role_binding_for_ishield,
  create_or_update_observer_cluster_role_binding_for_ishield,
  create_or_update_cluster_role_for_ishield, create_or_update_observer_cluster_role_for_ishield,
  create_or_update_role_binding_for_ishield, create_or_update_role_for_ishield,
  create_or_update_ishield_policy, create_or_update_tls_secret, create_or_update_ac_tls_secret,
  create_or_update_ishield_server_deployment, create_or_update_admission_controller_deployment,
  create_or_update_observer_deployment, create_or_update_webhook_service,
  create_or_update_api_service, create_or_update_manifest_integrity_constraint,
  is_deployment_available, is_gatekeeper_available,
}

-- The first handler that fails or asks for another pass ends the pass.
unfoldable pub run_handlers :
    {Cluster : Type 0}
    → List (Cluster → (RecResult × Option Error) × Cluster)
    → Cluster
    → (RecResult × Option Error) × Cluster
run_handlers [] w = ((no_requeue, none), w)
run_handlers (handler ∷ handlers) w =
    let ((rec_result, rec_err), w') = handler w in
    elim rec_err [
      | some e ↦ ((rec_result, some e), w')
      | none ↦ elim (rec_result.requeue) [
        | true ↦ ((rec_result, none), w')
        | false ↦ run_handlers handlers w'
      ]
    ]

module _ {Cluster : Type 0} (C : Client Cluster) where
  unfoldable pub common_handlers : IntegrityShield → List (Handler C)
  common_handlers instance =
      create_or_update_ishield_policy C instance
      ∷ create_or_update_request_handler_config C instance
      ∷ create_or_update_ishield_api_service_account C instance
      ∷ create_or_update_role_for_ishield C instance
      ∷ create_or_update_role_binding_for_ishield C instance
      ∷ create_or_update_cluster_role_for_ishield C instance
      ∷ create_or_update_cluster_role_binding_for_ishield C instance
      ∷ []

  unfoldable pub observer_handlers : IntegrityShield → List (Handler C)
  observer_handlers instance =
      create_or_update_verify_resource_result_crd C instance
      ∷ create_or_update_observer_config C instance
      ∷ create_or_update_observer_service_account C instance
      ∷ create_or_update_observer_cluster_role_for_ishield C instance
      ∷ create_or_update_observer_cluster_role_binding_for_ishield C instance
      ∷ create_or_update_observer_deployment C instance
      ∷ []

  unfoldable pub gatekeeper_handlers : IntegrityShield → List (Handler C)
  gatekeeper_handlers instance =
      create_or_update_tls_secret C instance
      ∷ create_or_update_ishield_server_deployment C instance
      ∷ create_or_update_api_service C instance
      ∷ []

  unfoldable pub admission_handlers : IntegrityShield → List (Handler C)
  admission_handlers instance =
      create_or_update_manifest_integrity_profile_crd C instance
      ∷ create_or_update_ac_config C instance
      ∷ create_or_update_ac_tls_secret C instance
      ∷ create_or_update_admission_controller_deployment C instance
      ∷ create_or_update_webhook_service C instance
      ∷ []

  -- The last step, which waits for Gatekeeper or for the admission controller.
  unfoldable pub last_handler : IntegrityShield → Handler C
  last_handler instance w =
      if instance.spec.use_gatekeeper
      then if is_gatekeeper_available C w
        then create_or_update_manifest_integrity_constraint C instance w
        else ((requeue_now, none), w)
      else if is_deployment_available C instance w
      then create_or_update_webhook C instance w
      else delete_webhook (cluster_scoped C) built_names instance w

  -- The handlers that do not wait, in their order.
  unfoldable pub installation : IntegrityShield → List (Handler C)
  unfolding common_handlers observer_handlers gatekeeper_handlers admission_handlers
  installation instance =
      common_handlers instance
      ++ ((if instance.spec.observer.enabled then observer_handlers instance else [])
          ++ (if instance.spec.use_gatekeeper
              then gatekeeper_handlers instance
              else admission_handlers instance))

  unfoldable pub install : IntegrityShield → Handler C
  unfolding run_handlers installation last_handler
  install instance w = run_handlers (installation instance ++ (last_handler instance ∷ [])) w

  -- `req` is the namespace and the name.
  unfoldable pub reconcile : Str × Str → Handler C
  unfolding install
  reconcile req w = elim (C.get_instance w req.0 req.1) [
    | err e ↦ if is_not_found e then ((no_requeue, none), w) else ((no_requeue, some e), w)
    | ok instance ↦
        if instance.deletion_timestamp
        then finalize (cluster_scoped C) built_names instance w
        else install instance w
  ]
