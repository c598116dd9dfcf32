-- ===== src/Operator/Deletion/Cleanup.antt =====
-- When the cleanup of an IntegrityShield succeeds
-- (integrity-shield-operator/controllers/integrityshield_controller.go).
use integrity_shield.Base.{
  Str, ◌≡◌, refl, sym, ◌∙◌, ap, true, false, List, [], ◌∷◌, ◌++◌, if◌then◌else◌, map, Option, none,
  some, ok, err, Error, is_not_found, arith, ◌↔◌, inl, inr, Bool-cases, Option-cases, Result-cases,
}
use integrity_shield.Operator.Objects.{
  Kind, custom_resource_definition, cluster_role, cluster_role_binding, constraint_template,
  validating_webhook_configuration, pod_security_policy,
}
use integrity_shield.Operator.Types.{IntegrityShield, cleanup_finalizer_name}
use integrity_shield.Operator.Deletion.{
  no_requeue, Api, Names, contains_string, remove_string, Answer, delete_found, delete_crd,
  delete_cluster_role, delete_cluster_role_binding, delete_pod_security_policy, delete_webhook,
  delete_constraint_template, child_deletions, until_error,
  delete_cluster_scoped_children_resources, finalize,
}

-- An object of the cluster, by its kind and name.
abbrev pub Child : Type 0
Child = Kind × Str

-- The objects of the cluster that belong to an instance, in the order in which they are deleted.
unfoldable pub children : Names → IntegrityShield → List Child
children N instance =
    ((cluster_role, N.cluster_role_for_ishield instance)
      ∷ (cluster_role_binding, N.cluster_role_binding_for_ishield instance)
      ∷ (if instance.spec.use_gatekeeper
          then (constraint_template, N.constraint_template_for_ishield instance) ∷ []
          else (
            validating_webhook_configuration,
            N.validating_webhook_configuration_for_ishield instance,
          )
            ∷ (custom_resource_definition, N.manifest_integrity_profile_crd instance)
            ∷ []))
    ++ ((pod_security_policy, N.pod_security_policy instance)
        ∷ (if instance.spec.observer.enabled
            then (cluster_role, N.cluster_role_for_observer instance)
              ∷ (cluster_role_binding, N.cluster_role_binding_for_observer instance)
              ∷ (custom_resource_definition, N.verify_resource_result_crd instance)
              ∷ []
            else []))

module _ {Cluster : Type 0} (A : Api Cluster) where
  -- Each object is not found, or is found and deleted without an error, one after the other.
  pub data Cleared : List Child → Cluster → Cluster → Type 0 where
    finished : {w w' : Cluster} → w ≡ w' → Cleared [] w w'
    absent :
        {w w' : Cluster} {k : Kind} {n : Str} {rest : List Child} {e : Error}
        → A.get w k n ≡ err e
        → is_not_found e ≡ true
        → Cleared rest w w'
        → Cleared ((k, n) ∷ rest) w w'
    removed :
        {w w₁ w' : Cluster} {k : Kind} {n : Str} {rest : List Child} {found : A.Object k}
        → A.get w k n ≡ ok found
        → A.delete w k found ≡ (none, w₁)
        → Cleared rest w₁ w'
        → Cleared ((k, n) ∷ rest) w w'

  abbrev steps : List Child → List (Cluster → Answer A)
  steps cs = map (λ (c : Child). delete_found A c.0 c.1) cs

  module _ (N : Names) where
    child_deletions-steps :
        (instance : IntegrityShield) → child_deletions A N instance ≡ steps (children N instance)
    unfolding child_deletions children delete_crd delete_cluster_role delete_cluster_role_binding
        delete_pod_security_policy delete_webhook delete_constraint_template
    child_deletions-steps instance = elim (Bool-cases (instance.spec.use_gatekeeper)) [
      | inl g ↦ elim (Bool-cases (instance.spec.observer.enabled)) [
        | inl o ↦ rw g (rw o refl)
        | inr o ↦ rw g (rw o refl)
      ]
      | inr g ↦ elim (Bool-cases (instance.spec.observer.enabled)) [
        | inl o ↦ rw g (rw o refl)
        | inr o ↦ rw g (rw o refl)
      ]
    ]

    abbrev cleanup : List Child → Cluster → Option Error × Cluster
    cleanup cs w = until_error A N (steps cs) w

    cleanup_removed :
        (k : Kind) (n : Str) (rest : List Child) (w : Cluster) (found : A.Object k)
        → A.get w k n ≡ ok found
        → (A.delete w k found).0 ≡ none
        → cleanup ((k, n) ∷ rest) w ≡ cleanup rest (A.delete w k found).1
    unfolding until_error delete_found
    cleanup_removed k n rest w found p d = ground arith

    cleanup_failed :
        (k : Kind) (n : Str) (rest : List Child) (w : Cluster) (found : A.Object k) (e : Error)
        → A.get w k n ≡ ok found
        → (A.delete w k found).0 ≡ some e
        → (cleanup ((k, n) ∷ rest) w).0 ≡ some e
    unfolding until_error delete_found
    cleanup_failed k n rest w found e p d = ground arith

    cleanup_absent :
        (k : Kind) (n : Str) (rest : List Child) (w : Cluster) (e : Error)
        → A.get w k n ≡ err e
        → is_not_found e ≡ true
        → cleanup ((k, n) ∷ rest) w ≡ cleanup rest w
    unfolding until_error delete_found
    cleanup_absent k n rest w e p f = ground arith

    cleanup_unread :
        (k : Kind) (n : Str) (rest : List Child) (w : Cluster) (e : Error)
        → A.get w k n ≡ err e
        → is_not_found e ≡ false
        → (cleanup ((k, n) ∷ rest) w).0 ≡ some e
    unfolding until_error delete_found
    cleanup_unread k n rest w e p f = ground arith

    some-ne-none :
        {e : Error} {r : Option Error × Cluster} {w' : Cluster} → r.0 ≡ some e → r ≡ (none, w') → ⊥
    some-ne-none p q = some-none (sym p ∙ ap (λ (r : Option Error × Cluster). r.0) q)
      where
        some-none : {e : Error} → some e ≡ none → ⊥
        some-none q = cc

    pair-none : {r : Option Error × Cluster} → r.0 ≡ none → r ≡ (none, r.1)
    pair-none {r} p = λ i. (p i, r.1)

    cleanup-Cleared :
        (cs : List Child) (w w' : Cluster) → cleanup cs w ≡ (none, w') → Cleared cs w w'
    unfolding until_error
    cleanup-Cleared [] w w' h = finished (ap (λ (r : Option Error × Cluster). r.1) h)
    cleanup-Cleared ((k, n) ∷ rest) w w' h = elim (Result-cases (A.get w k n)) [
      | inl (found, p) ↦ elim (Option-cases ((A.delete w k found).0)) [
        | inl d ↦ removed p (pair-none d) (
            cleanup-Cleared rest (A.delete w k found).1 w'
              (sym (cleanup_removed k n rest w found p d) ∙ h))
        | inr (e, d) ↦ absurd (some-ne-none (cleanup_failed k n rest w found e p d) h)
      ]
      | inr (e, p) ↦ elim (Bool-cases (is_not_found e)) [
        | inl f ↦ absent p f (cleanup-Cleared rest w w' (sym (cleanup_absent k n rest w e p f) ∙ h))
        | inr f ↦ absurd (some-ne-none (cleanup_unread k n rest w e p f) h)
      ]
    ]

    Cleared-cleanup :
        (cs : List Child) (w w' : Cluster) → Cleared cs w w' → cleanup cs w ≡ (none, w')
    unfolding until_error
    Cleared-cleanup cs w w' (finished e) = λ i. (none, e i)
    Cleared-cleanup cs w w' (absent {k} {n} {rest} {e} p f c) =
        cleanup_absent k n rest w e p f ∙ Cleared-cleanup rest w w' c
    Cleared-cleanup cs w w' (removed {w₁} {k} {n} {rest} {found} p d c) =
        cleanup_removed k n rest w found p (ap (λ (r : Option Error × Cluster). r.0) d)
        ∙ ap (λ (r : Option Error × Cluster). cleanup rest r.1) d
        ∙ Cleared-cleanup rest w₁ w' c

    -- The cleanup succeeds exactly when each object that belongs to the instance is not found, or
    -- is found and deleted without an error, one after the other, and the cluster is then the one
    -- that these deletions leave.
    pub delete_cluster_scoped_children_resources_iff :
        (instance : IntegrityShield) (w w' : Cluster)
        → (delete_cluster_scoped_children_resources A N instance w ≡ (none, w'))
          ↔ Cleared (children N instance) w w'
    unfolding delete_cluster_scoped_children_resources
    delete_cluster_scoped_children_resources_iff instance w w' =
        rw (child_deletions-steps instance)
          (cleanup-Cleared (children N instance) w w', Cleared-cleanup (children N instance) w w')

    module _ (instance : IntegrityShield) (w : Cluster)
        (contained : contains_string instance.finalizers cleanup_finalizer_name ≡ true) where
      abbrev released : IntegrityShield
      released = record instance {
        finalizers = remove_string instance.finalizers cleanup_finalizer_name;
      }

      abbrev cleaned_up : Option Error × Cluster
      cleaned_up = delete_cluster_scoped_children_resources A N instance w

      abbrev updated : Option Error × Cluster
      updated = A.update_instance cleaned_up.1 released

      finalize_cleaned :
          cleaned_up.0 ≡ none
          → updated.0 ≡ none
          → finalize A N instance w ≡ ((no_requeue, none), updated.1)
      unfolding finalize
      finalize_cleaned p q = ground (arith, contained)

      finalize_uncleaned :
          (e : Error) → cleaned_up.0 ≡ some e → (finalize A N instance w).0.1 ≡ some e
      unfolding finalize
      finalize_uncleaned e p = ground (arith, contained)

      finalize_unreleased :
          (e : Error)
          → cleaned_up.0 ≡ none
          → updated.0 ≡ some e
          → (finalize A N instance w).0.1 ≡ some e
      unfolding finalize
      finalize_unreleased e p q = ground (arith, contained)

      answer-ne :
          {e : Error} {a : Answer A} {w' : Cluster}
          → a.0.1 ≡ some e
          → a ≡ ((no_requeue, none), w')
          → ⊥
      answer-ne {e} {a} {w'} p q = some-ne-none {r = (a.0.1, w')} p (λ i. ((q i).0.1, w'))

      finalize_split :
          (w' : Cluster)
          → finalize A N instance w ≡ ((no_requeue, none), w')
          → (cleaned_up.0 ≡ none) × (updated.0 ≡ none)
      finalize_split w' h = elim (Option-cases (cleaned_up.0)) [
        | inr (e, p) ↦ absurd (answer-ne (finalize_uncleaned e p) h)
        | inl p ↦ elim (Option-cases (updated.0)) [
          | inr (e, q) ↦ absurd (answer-ne (finalize_unreleased e p q) h)
          | inl q ↦ (p, q)
        ]
      ]

      -- For an instance with the cleanup finalizer, the finalizer step succeeds exactly when the
      -- cleanup does and then the instance is updated without the finalizer; so the finalizer
      -- stays as long as an object cannot be deleted.
      pub finalize_iff :
          (w' : Cluster)
          → (finalize A N instance w ≡ ((no_requeue, none), w')) ↔ (
              (cleaned : Cluster) × Cleared (children N instance) w cleaned
              × (A.update_instance cleaned (record instance {
                finalizers = remove_string instance.finalizers cleanup_finalizer_name;
              })
                  ≡ (none, w')))
      finalize_iff w' =
          let cleared = delete_cluster_scoped_children_resources_iff instance w in
          (
            λ h.
                let (p, q) = finalize_split w' h in
                (
                  cleaned_up.1,
                  (cleared cleaned_up.1).0 (pair-none p),
                  λ i. (
                    q i,
                    ((sym (ap (λ (a : Answer A). a.1) (finalize_cleaned p q)))
                          ∙ ap (λ (a : Answer A). a.1) h)
                        i,
                  ),
                ),
            λ x.
                let (cleaned, c, u) = x in
                let same = (cleared cleaned).1 c in
                let moved : updated ≡ (none, w') =
                  ap (λ (r : Option Error × Cluster). A.update_instance r.1 released) same ∙ u in
                finalize_cleaned (ap (λ (r : Option Error × Cluster). r.0) same)
                  (ap (λ (r : Option Error × Cluster). r.0) moved)
                ∙ ap (λ (r : Option Error × Cluster). ((no_requeue, none), r.1)) moved,
          )
