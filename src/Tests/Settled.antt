-- ===== src/Tests/Settled.antt =====
-- A cluster in memory in which the installation of an instance has come to an end.
use integrity_shield.Base.{length, bytes, ◌==◌, any, [], none, ◌≡◌, refl}
use integrity_shield.Operator.Reconcile.{
  installation, common_handlers, observer_handlers, gatekeeper_handlers, admission_handlers,
}
use integrity_shield.Operator.Creation.{
  create_or_update_config_map, create_or_update_service_account, create_or_update_role,
  create_or_update_role_binding, create_or_update_secret, create_or_update_service,
  create_or_update_cluster_role, create_or_update_cluster_role_binding,
  create_or_update_pod_security_policy, create_or_update_crd, create_or_update_deployment,
}
use integrity_shield.Operator.Handlers.{
  create_or_update_manifest_integrity_profile_crd, create_or_update_verify_resource_result_crd,
  create_or_update_request_handler_config, create_or_update_ac_config,
  create_or_update_observer_config, create_or_update_ishield_api_service_account,
  create_or_update_observer_service_account, create_or_update_cluster_role_binding_for_ishield,
  create_or_update_observer_cluster_role_binding_for_ishield,
  create_or_update_cluster_role_for_ishield, create_or_update_observer_cluster_role_for_ishield,
  create_or_update_role_binding_for_ishield, create_or_update_role_for_ishield,
  create_or_update_ishield_policy, create_or_update_tls_secret, create_or_update_ac_tls_secret,
  create_or_update_ishield_server_deployment, create_or_update_admission_controller_deployment,
  create_or_update_observer_deployment, create_or_update_webhook_service,
  create_or_update_api_service,
}
use integrity_shield.Operator.Resources.Config.{
  build_req_config_for_ishield, build_ac_config_for_ishield, build_observer_config_for_ishield,
  build_tls_secret_for_ishield, build_api_tls_secret_for_ishield,
}
use integrity_shield.Operator.Resources.Deploy.{
  build_deployment_for_ishield_server, build_deployment_for_admission_controller,
  build_deployment_for_observer,
}
use integrity_shield.Operator.Resources.Roles.{
  build_service_account_for_ishield, build_service_account_for_observer,
  build_cluster_role_for_ishield, build_cluster_role_binding_for_ishield, build_role_for_ishield,
  build_cluster_role_for_observer, build_role_binding_for_ishield,
  build_cluster_role_binding_for_observer, build_pod_security_policy,
}
use integrity_shield.Operator.Resources.Webhook.{
  build_service_for_ishield, build_api_service_for_ishield,
}
use integrity_shield.Operator.Reconcile.{run_handlers, install, last_handler}
use integrity_shield.Operator.Objects.{pod_security_policy}
use integrity_shield.Operator.Client.{cluster_scoped}
use integrity_shield.Operator.Deletion.{
  delete_cluster_scoped_children_resources, child_deletions, until_error, delete_found, delete_crd,
  delete_cluster_role, delete_cluster_role_binding, delete_pod_security_policy, delete_webhook,
  delete_constraint_template,
}
use integrity_shield.Operator.Handlers.{built_names}
use integrity_shield.Operator.Reconcile.Laws.{Found}
use integrity_shield.Operator.Creation.{create_or, create_missing, update_crd, update_deployment}
use integrity_shield.Operator.Handlers.{same_deployment, add_cert_values}
use integrity_shield.Operator.Resources.Compare.{
  equal_deployments, equal_pods, equal_first, equal_containers, equal_labels, equal_annotations,
  same_option, same_list, same_entry, same_mount, same_port, same_env,
}
use integrity_shield.Operator.Certificates.{
  generate_cert, returned, issue, issue_tls, ca_template, tls_template, service_host,
}
use integrity_shield.Operator.Resources.Deploy.{secret_volume, empty_dir_volume}
use integrity_shield.Operator.Resources.Crd.{
  build_crd, build_manifest_integrity_profile_crd, build_verify_resource_result_crd, replace_once,
  drop,
}
use integrity_shield.Operator.Reconcile.Rounds.{after, Settled}
use integrity_shield.Tests.Instance.{shield}
use integrity_shield.Tests.Objects.{
  Objects, create_object, update_object, drop_object, pick, as_kind,
}
use integrity_shield.Tests.Lawful.{objects}

-- The cluster after as many passes over an empty one as there are objects to create.
abbrev pub complete : Objects
complete = after (install objects shield) 18 []

pub goes_through : Settled (run_handlers (installation objects shield) complete)
unfolding installation common_handlers observer_handlers gatekeeper_handlers admission_handlers
    build_crd build_manifest_integrity_profile_crd build_verify_resource_result_crd
    create_or_update_config_map create_or_update_service_account create_or_update_role
    create_or_update_role_binding create_or_update_secret create_or_update_service
    create_or_update_cluster_role create_or_update_cluster_role_binding
    create_or_update_pod_security_policy create_or_update_crd create_or_update_deployment
    create_or_update_manifest_integrity_profile_crd create_or_update_verify_resource_result_crd
    create_or_update_request_handler_config create_or_update_ac_config
    create_or_update_observer_config create_or_update_ishield_api_service_account
    create_or_update_observer_service_account create_or_update_cluster_role_binding_for_ishield
    create_or_update_observer_cluster_role_binding_for_ishield
    create_or_update_cluster_role_for_ishield create_or_update_observer_cluster_role_for_ishield
    create_or_update_role_binding_for_ishield create_or_update_role_for_ishield
    create_or_update_ishield_policy create_or_update_tls_secret create_or_update_ac_tls_secret
    create_or_update_ishield_server_deployment create_or_update_admission_controller_deployment
    create_or_update_observer_deployment create_or_update_webhook_service
    create_or_update_api_service build_req_config_for_ishield build_ac_config_for_ishield
    build_observer_config_for_ishield build_tls_secret_for_ishield build_api_tls_secret_for_ishield
    build_deployment_for_ishield_server build_deployment_for_admission_controller
    build_deployment_for_observer build_service_account_for_ishield
    build_service_account_for_observer build_cluster_role_for_ishield
    build_cluster_role_binding_for_ishield build_role_for_ishield build_cluster_role_for_observer
    build_role_binding_for_ishield build_cluster_role_binding_for_observer build_pod_security_policy
    build_service_for_ishield build_api_service_for_ishield run_handlers install last_handler
    create_or create_missing update_crd update_deployment same_deployment equal_deployments
    equal_pods equal_first equal_containers equal_labels equal_annotations same_option same_list
    same_entry same_mount same_port same_env add_cert_values generate_cert returned issue issue_tls
    ca_template tls_template service_host create_object update_object pick as_kind secret_volume
    empty_dir_volume replace_once drop bytes ◌==◌ any
goes_through = (refl, refl)

-- The cleanup of the complete cluster.
abbrev pub emptied : Objects
emptied =
    (delete_cluster_scoped_children_resources (cluster_scoped objects) built_names shield
      complete).1

pub cleans_up :
    delete_cluster_scoped_children_resources (cluster_scoped objects) built_names shield complete
    ≡ (none, emptied)
unfolding delete_cluster_scoped_children_resources child_deletions until_error delete_found
    delete_crd delete_cluster_role delete_cluster_role_binding delete_pod_security_policy
    delete_webhook delete_constraint_template drop_object installation common_handlers
    observer_handlers gatekeeper_handlers admission_handlers build_crd
    build_manifest_integrity_profile_crd build_verify_resource_result_crd
    create_or_update_config_map create_or_update_service_account create_or_update_role
    create_or_update_role_binding create_or_update_secret create_or_update_service
    create_or_update_cluster_role create_or_update_cluster_role_binding
    create_or_update_pod_security_policy create_or_update_crd create_or_update_deployment
    create_or_update_manifest_integrity_profile_crd create_or_update_verify_resource_result_crd
    create_or_update_request_handler_config create_or_update_ac_config
    create_or_update_observer_config create_or_update_ishield_api_service_account
    create_or_update_observer_service_account create_or_update_cluster_role_binding_for_ishield
    create_or_update_observer_cluster_role_binding_for_ishield
    create_or_update_cluster_role_for_ishield create_or_update_observer_cluster_role_for_ishield
    create_or_update_role_binding_for_ishield create_or_update_role_for_ishield
    create_or_update_ishield_policy create_or_update_tls_secret create_or_update_ac_tls_secret
    create_or_update_ishield_server_deployment create_or_update_admission_controller_deployment
    create_or_update_observer_deployment create_or_update_webhook_service
    create_or_update_api_service build_req_config_for_ishield build_ac_config_for_ishield
    build_observer_config_for_ishield build_tls_secret_for_ishield build_api_tls_secret_for_ishield
    build_deployment_for_ishield_server build_deployment_for_admission_controller
    build_deployment_for_observer build_service_account_for_ishield
    build_service_account_for_observer build_cluster_role_for_ishield
    build_cluster_role_binding_for_ishield build_role_for_ishield build_cluster_role_for_observer
    build_role_binding_for_ishield build_cluster_role_binding_for_observer build_pod_security_policy
    build_service_for_ishield build_api_service_for_ishield run_handlers install last_handler
    create_or create_missing update_crd update_deployment same_deployment equal_deployments
    equal_pods equal_first equal_containers equal_labels equal_annotations same_option same_list
    same_entry same_mount same_port same_env add_cert_values generate_cert returned issue issue_tls
    ca_template tls_template service_host create_object update_object pick as_kind secret_volume
    empty_dir_volume replace_once drop bytes ◌==◌ any
cleans_up = refl

pub fewer : length emptied ≡ 11
unfolding delete_cluster_scoped_children_resources child_deletions until_error delete_found
    delete_crd delete_cluster_role delete_cluster_role_binding delete_pod_security_policy
    delete_webhook delete_constraint_template drop_object installation common_handlers
    observer_handlers gatekeeper_handlers admission_handlers build_crd
    build_manifest_integrity_profile_crd build_verify_resource_result_crd
    create_or_update_config_map create_or_update_service_account create_or_update_role
    create_or_update_role_binding create_or_update_secret create_or_update_service
    create_or_update_cluster_role create_or_update_cluster_role_binding
    create_or_update_pod_security_policy create_or_update_crd create_or_update_deployment
    create_or_update_manifest_integrity_profile_crd create_or_update_verify_resource_result_crd
    create_or_update_request_handler_config create_or_update_ac_config
    create_or_update_observer_config create_or_update_ishield_api_service_account
    create_or_update_observer_service_account create_or_update_cluster_role_binding_for_ishield
    create_or_update_observer_cluster_role_binding_for_ishield
    create_or_update_cluster_role_for_ishield create_or_update_observer_cluster_role_for_ishield
    create_or_update_role_binding_for_ishield create_or_update_role_for_ishield
    create_or_update_ishield_policy create_or_update_tls_secret create_or_update_ac_tls_secret
    create_or_update_ishield_server_deployment create_or_update_admission_controller_deployment
    create_or_update_observer_deployment create_or_update_webhook_service
    create_or_update_api_service build_req_config_for_ishield build_ac_config_for_ishield
    build_observer_config_for_ishield build_tls_secret_for_ishield build_api_tls_secret_for_ishield
    build_deployment_for_ishield_server build_deployment_for_admission_controller
    build_deployment_for_observer build_service_account_for_ishield
    build_service_account_for_observer build_cluster_role_for_ishield
    build_cluster_role_binding_for_ishield build_role_for_ishield build_cluster_role_for_observer
    build_role_binding_for_ishield build_cluster_role_binding_for_observer build_pod_security_policy
    build_service_for_ishield build_api_service_for_ishield run_handlers install last_handler
    create_or create_missing update_crd update_deployment same_deployment equal_deployments
    equal_pods equal_first equal_containers equal_labels equal_annotations same_option same_list
    same_entry same_mount same_port same_env add_cert_values generate_cert returned issue issue_tls
    ca_template tls_template service_host create_object update_object pick as_kind secret_volume
    empty_dir_volume replace_once drop bytes ◌==◌ any
fewer = refl

pub installs :
    Found objects
      (install objects shield []).1
      pod_security_policy
      shield.spec.security.pod_security_policy_name
unfolding installation common_handlers observer_handlers gatekeeper_handlers admission_handlers
    build_crd build_manifest_integrity_profile_crd build_verify_resource_result_crd
    create_or_update_config_map create_or_update_service_account create_or_update_role
    create_or_update_role_binding create_or_update_secret create_or_update_service
    create_or_update_cluster_role create_or_update_cluster_role_binding
    create_or_update_pod_security_policy create_or_update_crd create_or_update_deployment
    create_or_update_manifest_integrity_profile_crd create_or_update_verify_resource_result_crd
    create_or_update_request_handler_config create_or_update_ac_config
    create_or_update_observer_config create_or_update_ishield_api_service_account
    create_or_update_observer_service_account create_or_update_cluster_role_binding_for_ishield
    create_or_update_observer_cluster_role_binding_for_ishield
    create_or_update_cluster_role_for_ishield create_or_update_observer_cluster_role_for_ishield
    create_or_update_role_binding_for_ishield create_or_update_role_for_ishield
    create_or_update_ishield_policy create_or_update_tls_secret create_or_update_ac_tls_secret
    create_or_update_ishield_server_deployment create_or_update_admission_controller_deployment
    create_or_update_observer_deployment create_or_update_webhook_service
    create_or_update_api_service build_req_config_for_ishield build_ac_config_for_ishield
    build_observer_config_for_ishield build_tls_secret_for_ishield build_api_tls_secret_for_ishield
    build_deployment_for_ishield_server build_deployment_for_admission_controller
    build_deployment_for_observer build_service_account_for_ishield
    build_service_account_for_observer build_cluster_role_for_ishield
    build_cluster_role_binding_for_ishield build_role_for_ishield build_cluster_role_for_observer
    build_role_binding_for_ishield build_cluster_role_binding_for_observer build_pod_security_policy
    build_service_for_ishield build_api_service_for_ishield run_handlers install last_handler
    create_or create_missing update_crd update_deployment same_deployment equal_deployments
    equal_pods equal_first equal_containers equal_labels equal_annotations same_option same_list
    same_entry same_mount same_port same_env add_cert_values generate_cert returned issue issue_tls
    ca_template tls_template service_host create_object update_object pick as_kind secret_volume
    empty_dir_volume replace_once drop bytes ◌==◌ any
installs = (build_pod_security_policy shield, refl)
