-- ===== src/Tests/Reconcile.antt =====
-- The installation of an instance in a cluster in memory, and the theorems about it there.
use integrity_shield.Base.{ok, bytes, ◌==◌, any, [], length, returns, Memᴰ, true, ◌≡◌, ◌≢◌, refl}
use integrity_shield.Operator.Objects.{config_map}
use integrity_shield.Operator.Resources.Deploy.{build_deployment_for_observer, empty_dir_volume}
use integrity_shield.Operator.Resources.Compare.{
  equal_deployments, equal_pods, equal_first, equal_containers, equal_labels, equal_annotations,
  same_option, same_list, same_entry, same_mount, same_port, same_env,
}
use integrity_shield.Operator.Resources.Roles.{
  build_role_binding_for_ishield, build_cluster_role_binding_for_ishield,
  build_cluster_role_binding_for_observer, build_pod_security_policy,
}
use integrity_shield.Operator.Creation.{
  create_or_update_pod_security_policy, create_or, create_missing,
}
use integrity_shield.Operator.Handlers.{create_or_update_ishield_policy}
use integrity_shield.Operator.Resources.Compare.Equality.{SameDeployment, equal_deployments_iff}
use integrity_shield.Operator.Reconcile.{install, run_handlers, installation, common_handlers}
use integrity_shield.Operator.Reconcile.References.{
  references, binding_references, deployment_references, secrets_of, configs_of, environment_of,
}
use integrity_shield.Operator.Reconcile.Present.{references_found}
use integrity_shield.Tests.Settled.{complete, goes_through}
use integrity_shield.Operator.Client.{ObjectOf}
use integrity_shield.Tests.Instance.{shield}
use integrity_shield.Tests.Objects.{Objects, create_object, pick, as_kind}
use integrity_shield.Tests.Lawful.{objects, objects-ClientIsLawful}

apart : bytes "observer" ≢ bytes "controller"
unfolding bytes
apart p = cc

itself :
    equal_deployments (build_deployment_for_observer shield) (build_deployment_for_observer shield)
    ≡ returns true
unfolding equal_deployments equal_pods equal_first equal_containers equal_labels equal_annotations
    same_option same_list same_entry same_mount same_port same_env build_deployment_for_observer
    bytes ◌==◌
itself = refl

equal_deployments_iff_example :
    SameDeployment (build_deployment_for_observer shield) (build_deployment_for_observer shield)
equal_deployments_iff_example =
    (equal_deployments_iff (build_deployment_for_observer shield)
        (build_deployment_for_observer shield)).0
      itself

referred : Memᴰ (config_map, bytes "ns", bytes "observer-config") (references shield)
unfolding references binding_references deployment_references secrets_of configs_of environment_of
    build_role_binding_for_ishield build_cluster_role_binding_for_ishield
    build_cluster_role_binding_for_observer build_deployment_for_observer empty_dir_volume bytes
    ◌==◌ any
referred = Memᴰ.tail (
    Memᴰ.tail
      (Memᴰ.tail (Memᴰ.tail (Memᴰ.tail (Memᴰ.tail (Memᴰ.tail (Memᴰ.tail (Memᴰ.head refl))))))))

references_found_example :
    (p : ObjectOf config_map) × (objects.get
        (run_handlers (installation objects shield) complete).1
        config_map
        (bytes "ns")
        (bytes "observer-config")
      ≡ ok p)
references_found_example =
    references_found objects objects-ClientIsLawful shield apart complete goes_through referred

-- One object is put into an empty cluster first.
first_pass : length (install objects shield []).1 ≡ 1
unfolding install run_handlers installation common_handlers create_or_update_ishield_policy
    create_or_update_pod_security_policy create_or create_missing create_object pick as_kind
    build_pod_security_policy
first_pass = refl
