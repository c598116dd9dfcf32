-- ===== src/Operator/Reconcile/Laws.antt =====
-- What is asked of the API server, where a theorem about several passes needs it.
use integrity_shield.Base.{
  Str, Bool, true, false, none, some, ok, Error, is_already_exists, ◌⊎◌, [], ◌≡◌, ◌≢◌,
}
use integrity_shield.Operator.Objects.{
  Kind, custom_resource_definition, cluster_role, cluster_role_binding,
  validating_webhook_configuration, constraint_template, pod_security_policy, config_map,
  service_account, role, role_binding, secret, service, deployment, event,
}
use integrity_shield.Operator.Types.{IntegrityShield}
use integrity_shield.Operator.Client.{Client, ObjectOf, meta_of}

-- The kinds whose objects belong to no namespace.
abbrev pub is_cluster_wide : Kind → Bool
is_cluster_wide k = elim k [
  | custom_resource_definition ↦ true
  | cluster_role ↦ true
  | cluster_role_binding ↦ true
  | validating_webhook_configuration ↦ true
  | constraint_template ↦ true
  | pod_security_policy ↦ true
  | _ ↦ false
]

-- The second object has what the first one asks for: of a deployment, its labels and its pods.
abbrev pub Kept : (k : Kind) → ObjectOf k → ObjectOf k → Type 0
Kept deployment o p = (p.meta.labels ≡ o.meta.labels) × (p.spec.template ≡ o.spec.template)
Kept custom_resource_definition o p = Unit
Kept cluster_role o p = Unit
Kept cluster_role_binding o p = Unit
Kept validating_webhook_configuration o p = Unit
Kept constraint_template o p = Unit
Kept pod_security_policy o p = Unit
Kept config_map o p = Unit
Kept service_account o p = Unit
Kept role o p = Unit
Kept role_binding o p = Unit
Kept secret o p = Unit
Kept service o p = Unit
Kept event o p = Unit

module _ {Cluster : Type 0} (C : Client Cluster) where
  -- An object of the kind is read under the name and namespace of `o`, with what `o` asks for.
  abbrev pub Stored : Cluster → (k : Kind) → ObjectOf k → Type 0
  Stored w k o =
      (p : ObjectOf k) × (C.get w k (meta_of k o).namespace (meta_of k o).name ≡ ok p) × Kept k o p

  -- An object without a namespace that is found by its name.
  abbrev pub Found : Cluster → Kind → Str → Type 0
  Found w j n = (p : ObjectOf j) × (C.get w j [] n ≡ ok p)

  -- A creation or an update that reports no error stores the object, an object that exists already
  -- is found after the creation that says so, an object that is read under a name has it, a
  -- creation leaves the objects that are there alone, and an update removes none and leaves a
  -- deployment alone that has another name; neither of the two lets any object be found that has no
  -- namespace and was not found before, but the one that it is about. The namespace is not looked at for the kinds that have
  -- none, and `SetControllerReference` changes neither the name, nor the namespace, nor what an
  -- object asks for.
  pub record ClientIsLawful : Type 0 where
    pub get-create :
        (w : Cluster) (k : Kind) (o : ObjectOf k)
        → (C.create w k o).0 ≡ none
        → Stored (C.create w k o).1 k o
    pub get-update :
        (w : Cluster) (k : Kind) (o : ObjectOf k)
        → (C.update w k o).0 ≡ none
        → Stored (C.update w k o).1 k o
    pub create_keeps :
        (w : Cluster) (k : Kind) (o : ObjectOf k) (j : Kind) (ns n : Str) {p : ObjectOf j}
        → C.get w j ns n ≡ ok p
        → C.get (C.create w k o).1 j ns n ≡ ok p
    pub update_keeps :
        (w : Cluster) (k : Kind) (o : ObjectOf k) (j : Kind) (ns n : Str) {p : ObjectOf j}
        → (C.update w k o).0 ≡ none
        → C.get w j ns n ≡ ok p
        → (q : ObjectOf j) × (C.get (C.update w k o).1 j ns n ≡ ok q)
    pub update_others :
        (w : Cluster) (k : Kind) (o : ObjectOf k) (ns n : Str) {p : ObjectOf deployment}
        → (k ≡ deployment → (meta_of k o).name ≢ n)
        → (C.update w k o).0 ≡ none
        → C.get w deployment ns n ≡ ok p
        → C.get (C.update w k o).1 deployment ns n ≡ ok p
    pub exists_found :
        (w : Cluster) (k : Kind) (o : ObjectOf k) {f : Error}
        → (C.create w k o).0 ≡ some f
        → is_already_exists f ≡ true
        → (p : ObjectOf k) × (C.get (C.create w k o).1 k (meta_of k o).namespace (meta_of k o).name
            ≡ ok p)
    pub create_only :
        (w : Cluster) (k : Kind) (o : ObjectOf k) (j : Kind) (n : Str)
        → is_cluster_wide j ≡ true
        → Found (C.create w k o).1 j n
        → Found w j n ⊎ ((j ≡ k) × (n ≡ (meta_of k o).name))
    pub update_only :
        (w : Cluster) (k : Kind) (o : ObjectOf k) (j : Kind) (n : Str)
        → is_cluster_wide j ≡ true
        → Found (C.update w k o).1 j n
        → Found w j n ⊎ ((j ≡ k) × (n ≡ (meta_of k o).name))
    pub name-get :
        (w : Cluster) (k : Kind) (ns n : Str) {p : ObjectOf k}
        → C.get w k ns n ≡ ok p
        → (meta_of k p).name ≡ n
    pub namespace-get :
        (w : Cluster) (ns n : Str) {p : ObjectOf deployment}
        → C.get w deployment ns n ≡ ok p
        → p.meta.namespace ≡ ns
    pub any_namespace :
        (w : Cluster) (k : Kind) (ns other n : Str)
        → is_cluster_wide k ≡ true
        → C.get w k ns n ≡ C.get w k other n
    pub reference_keeps :
        (instance : IntegrityShield) (k : Kind) (o : ObjectOf k) {p : ObjectOf k}
        → C.set_controller_reference instance k o ≡ ok p
        → ((meta_of k p).name ≡ (meta_of k o).name)
          × ((meta_of k p).namespace ≡ (meta_of k o).namespace)
          × Kept k o p

  -- An object without a namespace that was deleted without an error is not found any more, and a
  -- deletion lets no object be found that was not found before.
  pub record DeleteIsLawful : Type 0 where
    pub get-delete :
        (w : Cluster) (k : Kind) (n : Str) {o : ObjectOf k}
        → is_cluster_wide k ≡ true
        → C.get w k [] n ≡ ok o
        → (C.delete w k o).0 ≡ none
        → ¬ Found (C.delete w k o).1 k n
    pub delete_only :
        (w : Cluster) (k : Kind) (o : ObjectOf k) (j : Kind) (n : Str)
        → is_cluster_wide j ≡ true
        → Found (C.delete w k o).1 j n
        → Found w j n
