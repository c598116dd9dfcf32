-- ===== src/Operator/Resources/Roles.antt =====
-- Service accounts, roles and their bindings, and the pod security policy
-- (integrity-shield-operator/resources/role.go).
use integrity_shield.Base.{Str, bytes, true, [], ◌∷◌, none, some}
use integrity_shield.Operator.Objects.{
  Labels, ObjectMeta, ServiceAccount, PolicyRule, Role, Subject, RoleRef, RoleBinding, IdRange,
  PodSecurityPolicy,
}
use integrity_shield.Operator.Types.{IntegrityShield}

-- The labels that the builders write out one by one.
abbrev pub labels_of : IntegrityShield → Labels
labels_of cr = some (
    (bytes "app", cr.name)
    ∷ (bytes "app.kubernetes.io/managed-by", bytes "operator")
    ∷ (bytes "app.kubernetes.io/name", cr.name)
    ∷ (bytes "role", bytes "security")
    ∷ [])

abbrev pub labelled : IntegrityShield → Str → ObjectMeta
labelled cr name = record {
  name = name;
  namespace = cr.namespace;
  labels = labels_of cr;
  annotations = none;
  owner_references = [];
}

unfoldable pub build_service_account_for_ishield : IntegrityShield → ServiceAccount
build_service_account_for_ishield cr = record {
  meta = labelled cr cr.spec.security.server_service_account_name;
}

unfoldable pub build_service_account_for_observer : IntegrityShield → ServiceAccount
build_service_account_for_observer cr = record {
  meta = labelled cr cr.spec.security.observer_service_account_name;
}

-- The rule that allows the four verbs on everything.
abbrev pub every_resource : PolicyRule
every_resource = record {
  api_groups = bytes "*" ∷ [];
  resources = bytes "*" ∷ [];
  verbs = bytes "get" ∷ bytes "list" ∷ bytes "create" ∷ bytes "update" ∷ [];
}

unfoldable pub build_cluster_role_for_ishield : IntegrityShield → Role
build_cluster_role_for_ishield cr = record {
  meta = labelled cr cr.spec.security.server_role;
  rules =
      record {
        api_groups = [] ∷ bytes "apis.integrityshield.io" ∷ [];
        resources = bytes "secrets" ∷ bytes "manifestintegrityprofiles" ∷ [];
        verbs = bytes "get" ∷ bytes "list" ∷ bytes "watch" ∷ bytes "patch" ∷ bytes "update" ∷ [];
      }
      ∷ record {
        api_groups = [] ∷ [];
        resources = bytes "events" ∷ [];
        verbs = bytes "create" ∷ bytes "update" ∷ bytes "get" ∷ [];
      }
      ∷ record {
        api_groups = bytes "*" ∷ [];
        resources = bytes "*" ∷ [];
        verbs = bytes "get" ∷ bytes "list" ∷ [];
      }
      ∷ [];
}

abbrev pub account_subject : IntegrityShield → Str → Subject
account_subject cr name = record {
  kind = bytes "ServiceAccount";
  name = name;
  namespace = cr.namespace;
}

abbrev pub ref_to : Str → Str → RoleRef
ref_to kind name = record {
  api_group = bytes "rbac.authorization.k8s.io";
  kind = kind;
  name = name;
}

unfoldable pub build_cluster_role_binding_for_ishield : IntegrityShield → RoleBinding
build_cluster_role_binding_for_ishield cr = record {
  meta = labelled cr cr.spec.security.server_role_binding;
  subjects = account_subject cr cr.spec.security.server_service_account_name ∷ [];
  role_ref = ref_to (bytes "ClusterRole") cr.spec.security.server_role;
}

unfoldable pub build_role_for_ishield : IntegrityShield → Role
build_role_for_ishield cr = record {
  meta = labelled cr cr.spec.security.server_role;
  rules = every_resource ∷ [];
}

unfoldable pub build_cluster_role_for_observer : IntegrityShield → Role
build_cluster_role_for_observer cr = record {
  meta = labelled cr cr.spec.security.observer_role;
  rules = every_resource ∷ [];
}

unfoldable pub build_role_binding_for_ishield : IntegrityShield → RoleBinding
build_role_binding_for_ishield cr = record {
  meta = labelled cr cr.spec.security.server_role_binding;
  subjects = account_subject cr cr.spec.security.server_service_account_name ∷ [];
  role_ref = ref_to (bytes "Role") cr.spec.security.server_role;
}

unfoldable pub build_cluster_role_binding_for_observer : IntegrityShield → RoleBinding
build_cluster_role_binding_for_observer cr = record {
  meta = labelled cr cr.spec.security.observer_role_binding;
  subjects = account_subject cr cr.spec.security.observer_service_account_name ∷ [];
  role_ref = ref_to (bytes "ClusterRole") cr.spec.security.observer_role;
}

abbrev pub any_port : IdRange
any_port = record { min = 1; max = 65535 }

unfoldable pub build_pod_security_policy : IntegrityShield → PodSecurityPolicy
build_pod_security_policy cr = record {
  meta = record {
    name = cr.spec.security.pod_security_policy_name;
    namespace = cr.namespace;
    labels = some ((bytes "app", cr.name) ∷ []);
    annotations = none;
    owner_references = [];
  };
  privileged = true;
  fs_group = (bytes "MustRunAs", any_port ∷ []);
  run_as_user = bytes "RunAsAny";
  se_linux = bytes "RunAsAny";
  supplemental_groups = (bytes "MustRunAs", any_port ∷ []);
  volumes =
      bytes "configMap"
      ∷ bytes "hostPath"
      ∷ bytes "emptyDir"
      ∷ bytes "secret"
      ∷ bytes "persistentVolumeClaim"
      ∷ [];
  allowed_host_paths = bytes "/" ∷ [];
  allowed_capabilities = bytes "*" ∷ [];
  host_network = true;
  host_ipc = true;
  host_pid = true;
}
