-- ===== src/Operator/Client.antt =====
-- The client of controller-runtime, as the reconciler uses it for each kind of object.
use integrity_shield.Base.{ℕ, Str, Bool, Option, Error, Result, []}
use integrity_shield.Operator.Objects.{
  Kind, custom_resource_definition, cluster_role, cluster_role_binding,
  validating_webhook_configuration, constraint_template, pod_security_policy, config_map,
  service_account, role, role_binding, secret, service, deployment, event, ObjectMeta, ConfigMap,
  Secret, ServiceAccount, Role, RoleBinding, PodSecurityPolicy, Service,
  ValidatingWebhookConfiguration, CustomResourceDefinition, CrdSpec, ConstraintTemplate, Event,
}
use integrity_shield.Operator.Certificates.{Crypto, Entropy}
use integrity_shield.Operator.Pods.{Deployment}
use integrity_shield.Operator.Types.{IntegrityShield}
use integrity_shield.Operator.Deletion.{Api}
use integrity_shield.Operator.Creation.{KindApi}

abbrev pub ObjectOf : Kind → Type 0
ObjectOf custom_resource_definition = CustomResourceDefinition
ObjectOf cluster_role = Role
ObjectOf cluster_role_binding = RoleBinding
ObjectOf validating_webhook_configuration = ValidatingWebhookConfiguration
ObjectOf constraint_template = ConstraintTemplate
ObjectOf pod_security_policy = PodSecurityPolicy
ObjectOf config_map = ConfigMap
ObjectOf service_account = ServiceAccount
ObjectOf role = Role
ObjectOf role_binding = RoleBinding
ObjectOf secret = Secret
ObjectOf service = Service
ObjectOf deployment = Deployment
ObjectOf event = Event

abbrev pub meta_of : (k : Kind) → ObjectOf k → ObjectMeta
meta_of custom_resource_definition o = o.meta
meta_of cluster_role o = o.meta
meta_of cluster_role_binding o = o.meta
meta_of validating_webhook_configuration o = o.meta
meta_of constraint_template o = o.meta
meta_of pod_security_policy o = o.meta
meta_of config_map o = o.meta
meta_of service_account o = o.meta
meta_of role o = o.meta
meta_of role_binding o = o.meta
meta_of secret o = o.meta
meta_of service o = o.meta
meta_of deployment o = o.meta
meta_of event o = o.meta

-- `get` takes the namespace before the name.
pub record Client (Cluster : Type 0) : Type 0 where
  pub get : Cluster → (k : Kind) → Str → Str → Result (ObjectOf k)
  pub create : Cluster → (k : Kind) → ObjectOf k → Option Error × Cluster
  pub update : Cluster → (k : Kind) → ObjectOf k → Option Error × Cluster
  pub delete : Cluster → (k : Kind) → ObjectOf k → Option Error × Cluster
  pub get_instance : Cluster → Str → Str → Result IntegrityShield
  pub update_instance : Cluster → IntegrityShield → Option Error × Cluster
  -- `controllerutil.SetControllerReference`
  pub set_controller_reference : IntegrityShield → (k : Kind) → ObjectOf k → Result (ObjectOf k)
  -- `reflect.DeepEqual` of two whole specs
  pub same_crd_spec : CrdSpec → CrdSpec → Bool
  pub crypto : Crypto
  pub random : Cluster → Entropy
  -- the reading of the clock
  pub now : Cluster → ℕ

module _ {Cluster : Type 0} (C : Client Cluster) where
  -- The client for one kind.
  abbrev pub at : Kind → KindApi Cluster
  at k = record {
    Object = ObjectOf k;
    name = λ o. (meta_of k o).name;
    namespace = λ o. (meta_of k o).namespace;
    get = λ w ns n. C.get w k ns n;
    create = λ w o. C.create w k o;
    update = λ w o. C.update w k o;
    set_controller_reference = λ instance o. C.set_controller_reference instance k o;
  }

  -- The client for objects that have no namespace.
  abbrev pub cluster_scoped : Api Cluster
  cluster_scoped = record {
    Object = ObjectOf;
    get = λ w k n. C.get w k [] n;
    delete = λ w k o. C.delete w k o;
    update_instance = λ w instance. C.update_instance w instance;
  }
