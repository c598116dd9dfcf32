-- ===== src/Operator/Deletion.antt =====
-- The deletion of an IntegrityShield: the finalizer step of `Reconcile` and the handlers that it
-- calls (integrity-shield-operator/controllers/integrityshield_controller.go and
-- integrityshield.go).
pub mod Cleanup
pub mod Finalizers
use integrity_shield.Base.{
  ℕ, Str, bytes, ◌==◌, Bool, true, false, List, [], ◌∷◌, ◌++◌, if◌then◌else◌, not, any, keep,
  Option, none, some, Result, ok, err, Error, is_not_found,
}
use integrity_shield.Operator.Objects.{
  Kind, custom_resource_definition, cluster_role, cluster_role_binding,
  validating_webhook_configuration, constraint_template, pod_security_policy,
}
use integrity_shield.Operator.Types.{IntegrityShield, cleanup_finalizer_name}

-- `ctrl.Result`, the time in seconds.
pub record RecResult : Type 0 where
  pub requeue : Bool
  pub requeue_after : ℕ

abbrev pub no_requeue : RecResult
no_requeue = record { requeue = false; requeue_after = 0 }

abbrev pub requeue_soon : RecResult
requeue_soon = record { requeue = true; requeue_after = 1 }

-- The client of controller-runtime, for objects that have no namespace.
pub record Api (Cluster : Type 0) : Type 1 where
  pub Object : Kind → Type 0
  pub get : Cluster → (kind : Kind) → Str → Result (Object kind)
  pub delete : Cluster → (kind : Kind) → Object kind → Option Error × Cluster
  pub update_instance : Cluster → IntegrityShield → Option Error × Cluster

-- The names of the objects that the functions of integrity-shield-operator/resources build.
pub record Names : Type 0 where
  pub cluster_role_for_ishield : IntegrityShield → Str
  pub cluster_role_binding_for_ishield : IntegrityShield → Str
  pub constraint_template_for_ishield : IntegrityShield → Str
  pub validating_webhook_configuration_for_ishield : IntegrityShield → Str
  pub manifest_integrity_profile_crd : IntegrityShield → Str
  pub pod_security_policy : IntegrityShield → Str
  pub cluster_role_for_observer : IntegrityShield → Str
  pub cluster_role_binding_for_observer : IntegrityShield → Str
  pub verify_resource_result_crd : IntegrityShield → Str

unfoldable pub contains_string : List Str → Str → Bool
contains_string slice s = any (λ item. item == s) slice

unfoldable pub remove_string : List Str → Str → List Str
remove_string slice s = keep (λ item. not (item == s)) slice

module _ {Cluster : Type 0} (A : Api Cluster) where
  open A use {get, delete, update_instance}

  abbrev pub Answer : Type 0
  Answer = (RecResult × Option Error) × Cluster

  -- What each of the handlers does: an object that is found is deleted, one that is not found is
  -- no error.
  unfoldable pub delete_found : Kind → Str → Cluster → Answer
  delete_found kind name w = elim (get w kind name) [
    | ok found ↦
        let (e?, w') = delete w kind found in
        elim e? [ some e ↦ ((no_requeue, some e), w') | none ↦ ((requeue_soon, none), w') ]
    | err e ↦ if is_not_found e then ((requeue_soon, none), w) else ((no_requeue, some e), w)
  ]

  unfoldable pub delete_crd : Str → Cluster → Answer
  unfolding delete_found
  delete_crd = delete_found custom_resource_definition

  unfoldable pub delete_cluster_role : Str → Cluster → Answer
  unfolding delete_found
  delete_cluster_role = delete_found cluster_role

  unfoldable pub delete_cluster_role_binding : Str → Cluster → Answer
  unfolding delete_found
  delete_cluster_role_binding = delete_found cluster_role_binding

  module _ (N : Names) where
    unfoldable pub delete_pod_security_policy : IntegrityShield → Cluster → Answer
    unfolding delete_found
    delete_pod_security_policy instance =
        delete_found pod_security_policy (N.pod_security_policy instance)

    unfoldable pub delete_webhook : IntegrityShield → Cluster → Answer
    unfolding delete_found
    delete_webhook instance =
        delete_found validating_webhook_configuration
          (N.validating_webhook_configuration_for_ishield instance)

    unfoldable pub delete_constraint_template : IntegrityShield → Cluster → Answer
    unfolding delete_found
    delete_constraint_template instance =
        delete_found constraint_template (N.constraint_template_for_ishield instance)

    -- The handlers of the finalizer step, in their order.
    unfoldable pub child_deletions : IntegrityShield → List (Cluster → Answer)
    unfolding delete_crd delete_cluster_role delete_cluster_role_binding delete_pod_security_policy
        delete_webhook delete_constraint_template
    child_deletions instance =
        (delete_cluster_role (N.cluster_role_for_ishield instance)
          ∷ delete_cluster_role_binding (N.cluster_role_binding_for_ishield instance)
          ∷ (if instance.spec.use_gatekeeper
              then delete_constraint_template instance ∷ []
              else delete_webhook instance
                ∷ delete_crd (N.manifest_integrity_profile_crd instance)
                ∷ []))
        ++ (delete_pod_security_policy instance
            ∷ (if instance.spec.observer.enabled
                then delete_cluster_role (N.cluster_role_for_observer instance)
                  ∷ delete_cluster_role_binding (N.cluster_role_binding_for_observer instance)
                  ∷ delete_crd (N.verify_resource_result_crd instance)
                  ∷ []
                else []))

    -- The first error ends the sequence.
    unfoldable pub until_error : List (Cluster → Answer) → Cluster → Option Error × Cluster
    until_error [] w = (none, w)
    until_error (step ∷ steps) w =
        let ((_, e?), w') = step w in
        elim e? [ some e ↦ (some e, w') | none ↦ until_error steps w' ]

    unfoldable pub delete_cluster_scoped_children_resources :
        IntegrityShield → Cluster → Option Error × Cluster
    unfolding child_deletions until_error
    delete_cluster_scoped_children_resources instance = until_error (child_deletions instance)

    -- The finalizer step of `Reconcile`, for an instance that is under deletion.
    unfoldable pub finalize : IntegrityShield → Cluster → Answer
    unfolding delete_cluster_scoped_children_resources contains_string remove_string
    finalize instance w =
        if contains_string instance.finalizers cleanup_finalizer_name
        then (let (e?, w') = delete_cluster_scoped_children_resources instance w in
            elim e? [
              | some e ↦ ((no_requeue, some e), w')
              | none ↦
                  let (f?, w'') = update_instance w' (record instance {
                    finalizers = remove_string instance.finalizers cleanup_finalizer_name;
                  }) in
                  elim f? [
                    | some f ↦ ((no_requeue, some f), w'')
                    | none ↦ ((no_requeue, none), w'')
                  ]
            ])
        else ((no_requeue, none), w)
