-- ===== src/Operator/Reconcile/Removal.antt =====
-- The installation and the deletion of an instance, compared
-- (integrity-shield-operator/controllers/integrityshield_controller.go).
use integrity_shield.Base.{
  Bool, true, false, List, [], ◌∷◌, ◌++◌, if◌then◌else◌, Memᴰ, ◌≡◌, refl, sym, subst,
}
use mathlib.Core.List.Memᴰ.{append_right}
use integrity_shield.Operator.Objects.{
  custom_resource_definition, cluster_role, cluster_role_binding, validating_webhook_configuration,
  constraint_template, pod_security_policy,
}
use integrity_shield.Operator.Types.{IntegrityShield}
use integrity_shield.Operator.Deletion.Cleanup.{Child, children}
use integrity_shield.Operator.Handlers.{built_names}
use integrity_shield.Operator.Resources.Roles.{
  build_cluster_role_for_ishield, build_cluster_role_binding_for_ishield, build_pod_security_policy,
  build_cluster_role_for_observer, build_cluster_role_binding_for_observer,
}
use integrity_shield.Operator.Resources.Crd.{
  build_crd, build_manifest_integrity_profile_crd, build_verify_resource_result_crd,
}
use integrity_shield.Operator.Reconcile.Laws.{is_cluster_wide}
use integrity_shield.Operator.Reconcile.Keys.{
  Key, common_keys, observer_keys, gatekeeper_keys, admission_keys, installed_keys, installed,
}

-- Every key of a kind without a namespace is among the children.
data Removed (cs : List Child) : List Key → Type 0 where
  removed_none : Removed cs []
  removed_next :
      {x : Key} {xs : List Key}
      → (is_cluster_wide x.0 ≡ true → Memᴰ (x.0, x.2) cs)
      → Removed cs xs
      → Removed cs (x ∷ xs)

removed :
    {cs : List Child} {xs : List Key} {key : Key}
    → Removed cs xs
    → Memᴰ key xs
    → is_cluster_wide key.0 ≡ true
    → Memᴰ (key.0, key.2) cs
removed removed_none m = elim m [ ]
removed {cs} (removed_next h r) (Memᴰ.head e) =
    subst (λ (k : Key). is_cluster_wide k.0 ≡ true → Memᴰ (k.0, k.2) cs) (sym e) h
removed (removed_next h r) (Memᴰ.tail m) = removed r m

Removed-append :
    {cs : List Child} {xs ys : List Key} → Removed cs xs → Removed cs ys → Removed cs (xs ++ ys)
Removed-append removed_none h = h
Removed-append (removed_next k r) h = removed_next k (Removed-append r h)

-- A kind with namespaces is left to the garbage collector.
collected : {c : Child} {cs : List Child} → false ≡ true → Memᴰ c cs
collected p = absurd (false-ne-true p)
  where
    false-ne-true : false ≡ true → ⊥
    false-ne-true p = cc

module _ (instance : IntegrityShield) where
  abbrev pub first_children : Bool → List Child
  first_children g =
      (cluster_role, built_names.cluster_role_for_ishield instance)
      ∷ (cluster_role_binding, built_names.cluster_role_binding_for_ishield instance)
      ∷ (if g
          then (constraint_template, built_names.constraint_template_for_ishield instance) ∷ []
          else (
            validating_webhook_configuration,
            built_names.validating_webhook_configuration_for_ishield instance,
          )
            ∷ (custom_resource_definition, built_names.manifest_integrity_profile_crd instance)
            ∷ [])

  abbrev pub last_children : Bool → List Child
  last_children o =
      (pod_security_policy, built_names.pod_security_policy instance)
      ∷ (if o
          then (cluster_role, built_names.cluster_role_for_observer instance)
            ∷ (cluster_role_binding, built_names.cluster_role_binding_for_observer instance)
            ∷ (custom_resource_definition, built_names.verify_resource_result_crd instance)
            ∷ []
          else [])

  abbrev pub children_of : Bool → Bool → List Child
  children_of o g = first_children g ++ last_children o

  common-Removed : (o g : Bool) → Removed (children_of o g) (common_keys instance)
  unfolding common_keys build_pod_security_policy build_cluster_role_for_ishield
      build_cluster_role_binding_for_ishield
  common-Removed o g =
      removed_next (λ _. append_right (first_children g) (Memᴰ.head refl))
        (removed_next collected (
          removed_next collected (
            removed_next collected (
              removed_next collected (
                removed_next (λ _. Memᴰ.head refl)
                  (removed_next (λ _. Memᴰ.tail (Memᴰ.head refl)) removed_none))))))

  observer-Removed : (g : Bool) → Removed (children_of true g) (observer_keys instance)
  unfolding observer_keys build_cluster_role_for_observer build_cluster_role_binding_for_observer
      build_verify_resource_result_crd build_crd
  observer-Removed g =
      removed_next
        (λ _. append_right (first_children g) (Memᴰ.tail (Memᴰ.tail (Memᴰ.tail (Memᴰ.head refl)))))
        (removed_next collected (
          removed_next collected (
            removed_next (λ _. append_right (first_children g) (Memᴰ.tail (Memᴰ.head refl)))
              (removed_next
                (λ _. append_right (first_children g) (Memᴰ.tail (Memᴰ.tail (Memᴰ.head refl))))
                (removed_next collected removed_none)))))

  gatekeeper-Removed : (o : Bool) → Removed (children_of o true) (gatekeeper_keys instance)
  unfolding gatekeeper_keys
  gatekeeper-Removed o =
      removed_next collected (removed_next collected (removed_next collected removed_none))

  admission-Removed : (o : Bool) → Removed (children_of o false) (admission_keys instance)
  unfolding admission_keys build_manifest_integrity_profile_crd build_crd
  admission-Removed o =
      removed_next (λ _. Memᴰ.tail (Memᴰ.tail (Memᴰ.tail (Memᴰ.head refl))))
        (removed_next collected
          (removed_next collected (removed_next collected (removed_next collected removed_none))))

  all-Removed : (o g : Bool) → Removed (children_of o g) (installed_keys instance o g)
  unfolding installed_keys
  all-Removed true true =
      Removed-append (common-Removed true true)
        (Removed-append (observer-Removed true) (gatekeeper-Removed true))
  all-Removed true false =
      Removed-append (common-Removed true false)
        (Removed-append (observer-Removed false) (admission-Removed true))
  all-Removed false true = Removed-append (common-Removed false true) (gatekeeper-Removed false)
  all-Removed false false = Removed-append (common-Removed false false) (admission-Removed false)

  -- Each object that is installed for an instance and has no namespace, so that it is not deleted
  -- with the instance, is one that the cleanup of the instance deletes.
  pub installed-children :
      {key : Key}
      → Memᴰ key (installed instance)
      → is_cluster_wide key.0 ≡ true
      → Memᴰ (key.0, key.2) (children built_names instance)
  unfolding children
  installed-children m =
      removed (all-Removed instance.spec.observer.enabled instance.spec.use_gatekeeper) m
