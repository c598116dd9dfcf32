-- ===== src/Operator/Reconcile/Crds.antt =====
-- The handler of the custom resource definitions (integrity-shield-operator/controllers/integrityshield.go).
use integrity_shield.Base.{
  Str, ok, ◌⊎◌, subst, Bool, true, false, Bool-cases, none, Option-cases, ◌≡◌, refl, sym, ap, ◌∙◌,
  inl, inr, arith, [],
}
use integrity_shield.Operator.Objects.{
  Kind, deployment, custom_resource_definition, CustomResourceDefinition,
}
use integrity_shield.Operator.Types.{IntegrityShield}
use integrity_shield.Operator.Deletion.{no_requeue}
use integrity_shield.Operator.Reconcile.Steps.{Step}
use integrity_shield.Operator.Creation.{Pass, create_or, update_crd}
use integrity_shield.Operator.Client.{Client, at}
use integrity_shield.Operator.Handlers.{with_meta}
use integrity_shield.Operator.Reconcile.Laws.{is_cluster_wide, Found, ClientIsLawful}
use integrity_shield.Operator.Reconcile.Entries.{
  Change, unchanged, updated, Entry, found_good, found_good_of, of_found_good,
}
use integrity_shield.Operator.Reconcile.Entry.{
  PresentIsLawful, entry_calm, entry_works, entry_changes, entry_adds,
}
use integrity_shield.Operator.Reconcile.Kinds.{
  Keyed, named_so, looks_there, lands_there, stays_found,
}

module _ {Cluster : Type 0} (C : Client Cluster) (law : ClientIsLawful C)
    (instance : IntegrityShield) where
  true-ne-false : false ≡ true → ⊥
  true-ne-false p = cc

  crd-ne-deployment : custom_resource_definition ≡ deployment → ⊥
  crd-ne-deployment p = cc

  module _ (built : CustomResourceDefinition) (ns n : Str)
      (key : Keyed C custom_resource_definition (λ _. []) (λ _. built) ns n) where
    abbrev crd : Kind
    crd = custom_resource_definition

    abbrev same_spec : CustomResourceDefinition → CustomResourceDefinition → Bool
    same_spec e f = C.same_crd_spec e.spec f.spec

    abbrev updating : CustomResourceDefinition → CustomResourceDefinition → Step Cluster
    updating = update_crd (at C crd) same_spec with_meta

    module _ (expected found : CustomResourceDefinition) (w : Cluster) where
      updating_same :
          same_spec expected found ≡ true → updating expected found w ≡ ((no_requeue, none), w)
      unfolding update_crd
      updating_same p = ground arith

      updating_other :
          same_spec expected found ≡ false
          → updating expected found w ≡ (
            (no_requeue, (C.update w crd (with_meta expected found)).0),
            (C.update w crd (with_meta expected found)).1,
          )
      unfolding update_crd
      updating_other p = elim (Option-cases ((C.update w crd (with_meta expected found)).0)) [
        | inl q ↦ rw p (rw q refl)
        | inr (e, q) ↦ rw p (rw q refl)
      ]

      updating_Change :
          (updating expected found w).0.1 ≡ none → Change C none w (updating expected found w).1
      updating_Change fine = elim (Bool-cases (same_spec expected found)) [
        | inl p ↦ unchanged (ap (λ a. a.1) (updating_same p))
        | inr p ↦
            updated crd (with_meta expected found) (sym (ap (λ a. a.0.1) (updating_other p)) ∙ fine)
              (ap (λ a. a.1) (updating_other p)) (λ e. absurd (crd-ne-deployment e))
      ]

      updating_calm : (updating expected found w).0.0.requeue ≡ true → ⊥
      updating_calm h = elim (Bool-cases (same_spec expected found)) [
        | inl p ↦ true-ne-false (sym (ap (λ a. a.0.0.requeue) (updating_same p)) ∙ h)
        | inr p ↦ true-ne-false (sym (ap (λ a. a.0.0.requeue) (updating_other p)) ∙ h)
      ]

    updating_adds :
        (w : Cluster) (expected found : CustomResourceDefinition) (j : Kind) (m : Str)
        → C.get w crd ns n ≡ ok found
        → is_cluster_wide j ≡ true
        → Found C (updating expected found w).1 j m
        → Found C w j m ⊎ ((j ≡ crd) × (m ≡ n))
    updating_adds w expected found j m f wide h = elim (Bool-cases (same_spec expected found)) [
      | inl p ↦
          inl
            (subst (λ (a : Pass (at C crd)). Found C a.1 j m) (updating_same expected found w p) h)
      | inr p ↦
          elim (law.update_only w crd (with_meta expected found) j m wide (
            subst (λ (a : Pass (at C crd)). Found C a.1 j m) (updating_other expected found w p)
              h)) [ inl before ↦ inl before | inr (e, q) ↦ inr (e, q ∙ law.name-get w crd ns n f) ]
    ]

    pub update_crd-IsLawful :
        PresentIsLawful C custom_resource_definition
          (update_crd
            (at C custom_resource_definition)
            (λ e f. C.same_crd_spec e.spec f.spec)
            with_meta)
          (λ _. [])
          instance
          (λ _. built)
          ns
          n
          (λ _. true)
          none
    update_crd-IsLawful = record {
      looks = looks_there C law instance crd (λ _. []) (λ _. built) ns n key;
      lands = lands_there C law instance crd (λ _. []) (λ _. built) ns n key;
      titled = named_so C law instance crd (λ _. []) (λ _. built) ns n key;
      present_adds = λ w {expected} {found} j m f wide. updating_adds w expected found j m f wide;
      fits = λ _ _ _ _. refl;
      present_calm = λ w {expected} {found} _ _. updating_calm expected found w;
      present_works = λ w {expected} {found} o f fine.
          stays_found C law instance crd (λ _. []) (λ _. built) ns n key none w _
            (updating_Change expected found w fine) (found_good_of C crd ns n (λ _. true) w f refl);
      present_changes = λ w {expected} {found} _ _. updating_Change expected found w;
    }

    abbrev pub crd_entry : Entry C
    crd_entry = record {
      step =
          create_or (at C custom_resource_definition)
            (update_crd (at C custom_resource_definition) (λ e f. C.same_crd_spec e.spec f.spec)
              with_meta)
            (λ _. []) instance built;
      ready = found_good C custom_resource_definition ns n (λ _. true);
      deploys = none;
      key = (custom_resource_definition, ns, n);
      there = λ w h.
          let (p, got, _) = of_found_good C custom_resource_definition ns n (λ _. true) w h in
          (p, got);
      calm =
          entry_calm C law custom_resource_definition
            (update_crd (at C custom_resource_definition) (λ e f. C.same_crd_spec e.spec f.spec)
              with_meta)
            (λ _. []) instance (λ _. built) ns n (λ _. true) none update_crd-IsLawful;
      works =
          entry_works C law custom_resource_definition
            (update_crd (at C custom_resource_definition) (λ e f. C.same_crd_spec e.spec f.spec)
              with_meta)
            (λ _. []) instance (λ _. built) ns n (λ _. true) none update_crd-IsLawful;
      changes =
          entry_changes C law custom_resource_definition
            (update_crd (at C custom_resource_definition) (λ e f. C.same_crd_spec e.spec f.spec)
              with_meta)
            (λ _. []) instance (λ _. built) ns n (λ _. true) none update_crd-IsLawful;
      adds =
          entry_adds C law custom_resource_definition
            (update_crd (at C custom_resource_definition) (λ e f. C.same_crd_spec e.spec f.spec)
              with_meta)
            (λ _. []) instance (λ _. built) ns n (λ _. true) none update_crd-IsLawful;
      stays_there =
          stays_found C law instance custom_resource_definition (λ _. []) (λ _. built) ns n key;
      stays = λ d w w' _.
          stays_found C law instance custom_resource_definition (λ _. []) (λ _. built) ns n key d w
            w';
    }
