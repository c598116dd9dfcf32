-- ===== src/Operator/Reconcile/Deployments.antt =====
-- The handler of the deployments (integrity-shield-operator/controllers/integrityshield.go).
use integrity_shield.Base.{
  Str, ◌⊎◌, Bool, Outcome, returns, panics, List, ◌∷◌, length, true, false, Bool-cases, Option,
  none, some, Option-cases, Result, ok, err, Error, ◌≡◌, refl, sym, ap, subst, ◌∙◌, inl, inr, arith,
}
use integrity_shield.Operator.Objects.{Kind, deployment}
use integrity_shield.Operator.Pods.{Container, PodTemplateSpec, Deployment}
use integrity_shield.Operator.Types.{IntegrityShield}
use integrity_shield.Operator.Deletion.{no_requeue}
use integrity_shield.Operator.Resources.Compare.{equal_deployments}
use integrity_shield.Operator.Reconcile.Steps.{Step}
use integrity_shield.Operator.Creation.{Pass, requeue_now, create_or, update_deployment}
use integrity_shield.Operator.Client.{Client, at}
use integrity_shield.Operator.Handlers.{same_deployment, with_spec}
use integrity_shield.Operator.Resources.Compare.Equality.{equal_deployments_iff}
use integrity_shield.Operator.Reconcile.Laws.{Kept, is_cluster_wide, Found, ClientIsLawful}
use integrity_shield.Operator.Reconcile.Entries.{
  Change, unchanged, created, updated, Differ, Entry, found_good, found_good_of, of_found_good,
}
use integrity_shield.Operator.Reconcile.Entry.{
  PresentIsLawful, entry_calm, entry_works, entry_changes, entry_adds,
}
use integrity_shield.Operator.Reconcile.Kinds.{
  Keyed, named_so, looks_there, lands_there, stays_found,
}

module _ {Cluster : Type 0} (C : Client Cluster) (law : ClientIsLawful C)
    (instance : IntegrityShield) where
  true-ne-false : false ≡ true → ⊥
  true-ne-false p = cc

  none-ne-some : {A : Type 0} {n : A} → none ≡ some n → ⊥
  none-ne-some p = cc

  abbrev pub fitting : Result Deployment → Deployment → Bool
  fitting (ok expected) p = same_deployment expected p
  fitting (err _) p = false

  module _ (built : Deployment) (ns n : Str)
      (key : Keyed C deployment (λ _. instance.namespace) (λ _. built) ns n) {c : Container}
      {cs : List Container} (one : built.spec.template.spec.containers ≡ c ∷ cs) where
    abbrev fit : Deployment → Bool
    fit = fitting (C.set_controller_reference instance deployment built)

    abbrev deploying : Deployment → Deployment → Step Cluster
    deploying = update_deployment (at C deployment) same_deployment with_spec

    fit_of :
        {expected : Deployment}
        → C.set_controller_reference instance deployment built ≡ ok expected
        → (p : Deployment) → fit p ≡ same_deployment expected p
    fit_of {expected} o p = ap (λ r. fitting r p) o

    -- A deployment that keeps what is asked for counts as equal.
    same-Kept :
        {expected : Deployment}
        → C.set_controller_reference instance deployment built ≡ ok expected
        → (p : Deployment) → Kept deployment expected p
        → same_deployment expected p ≡ true
    unfolding same_deployment
    same-Kept {expected} o p (labels, template) =
        let (_, _, keeps) = law.reference_keeps instance deployment built o in
        let contained = ap (λ (t : PodTemplateSpec). t.spec.containers) keeps.1 ∙ one in
        answer_of (
          (equal_deployments_iff expected p).1 (
            labels,
            ap (λ (t : PodTemplateSpec). t.labels) template,
            ap (λ (t : PodTemplateSpec). t.annotations) template,
            ap (λ (t : PodTemplateSpec). t.spec.service_account_name) template,
            ap (λ (t : PodTemplateSpec). length t.spec.containers) template,
            (
              c,
              cs,
              c,
              cs,
              contained,
              ap (λ (t : PodTemplateSpec). t.spec.containers) template ∙ contained,
              (refl, refl, refl, refl, refl, refl, refl, refl),
            ),
          ))
      where
        answer_of :
            {r : Outcome Bool}
            → r ≡ returns true
            → (elim r [ returns b ↦ b | panics ↦ false ]) ≡ true
        answer_of e = ap (λ (r : Outcome Bool). elim r [ returns b ↦ b | panics ↦ false ]) e

    module _ (expected found : Deployment) (w : Cluster) where
      deploying_same :
          same_deployment expected found ≡ true
          → deploying expected found w ≡ ((no_requeue, none), w)
      unfolding update_deployment
      deploying_same p = ground arith

      abbrev redeployed : Option Error × Cluster
      redeployed = C.update w deployment (with_spec found expected)

      deploying_other :
          same_deployment expected found ≡ false
          → redeployed.0 ≡ none
          → deploying expected found w ≡ ((requeue_now, none), redeployed.1)
      unfolding update_deployment
      deploying_other p q = ground arith

      deploying_failed :
          (e : Error)
          → same_deployment expected found ≡ false
          → redeployed.0 ≡ some e
          → (deploying expected found w).0.1 ≡ some e
      unfolding update_deployment
      deploying_failed e p q = ground arith

      deploying_cluster :
          same_deployment expected found ≡ false → (deploying expected found w).1 ≡ redeployed.1
      unfolding update_deployment
      deploying_cluster p = elim (Option-cases (redeployed.0)) [
        | inl q ↦ rw p (rw q refl)
        | inr (e, q) ↦ rw p (rw q refl)
      ]

    -- What holds of the cluster as it is and of the updated one.
    deploying_fine :
        (P : Cluster → Type 0) (w : Cluster) (expected found : Deployment)
        → (same_deployment expected found ≡ true → P w)
        → ((C.update w deployment (with_spec found expected)).0 ≡ none
            → P (C.update w deployment (with_spec found expected)).1)
        → (deploying expected found w).0.1 ≡ none
        → P (deploying expected found w).1
    deploying_fine P w expected found same other fine =
        elim (Bool-cases (same_deployment expected found)) [
          | inl p ↦ subst (λ a. P a.1) (sym (deploying_same expected found w p)) (same p)
          | inr p ↦ elim (Option-cases ((redeployed expected found w).0)) [
            | inl q ↦ subst (λ a. P a.1) (sym (deploying_other expected found w p q)) (other q)
            | inr (e, q) ↦
                absurd (none-ne-some (sym fine ∙ deploying_failed expected found w e p q))
          ]
        ]

    deploying_adds :
        (w : Cluster) (expected found : Deployment) (j : Kind) (m : Str)
        → C.get w deployment ns n ≡ ok found
        → is_cluster_wide j ≡ true
        → Found C (deploying expected found w).1 j m
        → Found C w j m ⊎ ((j ≡ deployment) × (m ≡ n))
    deploying_adds w expected found j m f wide h =
        elim (Bool-cases (same_deployment expected found)) [
          | inl p ↦ inl (
              subst (λ (a : Pass (at C deployment)). Found C a.1 j m)
                (deploying_same expected found w p) h)
          | inr p ↦
              elim (law.update_only w deployment (with_spec found expected) j m wide
                (subst (λ v. Found C v j m) (deploying_cluster expected found w p) h)) [
                  | inl before ↦ inl before
                  | inr (e, q) ↦ inr (e, q ∙ law.name-get w deployment ns n f)
                ]
        ]

    pub update_deployment-IsLawful :
        PresentIsLawful C deployment
          (update_deployment (at C deployment) same_deployment with_spec)
          (λ _. instance.namespace)
          instance
          (λ _. built)
          ns
          n
          (fitting (C.set_controller_reference instance deployment built))
          (some n)
    unfolding same_deployment equal_deployments
    update_deployment-IsLawful = record {
      looks = looks_there C law instance deployment (λ _. instance.namespace) (λ _. built) ns n key;
      lands = lands_there C law instance deployment (λ _. instance.namespace) (λ _. built) ns n key;
      titled = named_so C law instance deployment (λ _. instance.namespace) (λ _. built) ns n key;
      present_adds = λ w {expected} {found} j m f wide. deploying_adds w expected found j m f wide;
      fits = λ w o p a. fit_of o p ∙ same-Kept o p a;
      present_calm = λ w {expected} {found} o g h. true-ne-false (
          sym (ap (λ a. a.0.0.requeue) (deploying_same expected found w (sym (fit_of o _) ∙ g)))
          ∙ h);
      present_works = λ w {expected} {found} o f.
          deploying_fine (λ v. found_good C deployment ns n fit v ≡ true) w expected found
            (λ p. found_good_of C deployment ns n fit w f (fit_of o _ ∙ p))
            (λ p.
              let (q, got, g) = law.get-update w deployment (with_spec found expected) p in
              found_good_of C deployment ns n fit _
                ((λ i.
                    C.get (redeployed expected found w).1 deployment
                      (sym (law.namespace-get w ns n f) i)
                      (sym (law.name-get w deployment ns n f) i))
                  ∙ got)
                (fit_of o _ ∙ same-Kept o q g));
      present_changes = λ w {expected} {found} o f.
          deploying_fine (λ v. Change C (some n) w v) w expected found (λ _. unchanged refl)
            (λ p.
              updated deployment (with_spec found expected) p refl
                (λ _. ap some (sym (law.name-get w deployment ns n f))));
    }

    pub stays_fitting :
        (d : Option Str) (w w' : Cluster)
        → Differ C d (some n)
        → Change C d w w'
        → found_good C deployment ns n
            (fitting (C.set_controller_reference instance deployment built))
            w
          ≡ true
        → found_good C deployment ns n
            (fitting (C.set_controller_reference instance deployment built))
            w'
          ≡ true
    stays_fitting d w w' apart (unchanged e) h =
        subst (λ v. found_good C deployment ns n fit v ≡ true) (sym e) h
    stays_fitting d w w' apart (created j o e) h =
        let (q, got, g) = of_found_good C deployment ns n fit w h in
        subst (λ v. found_good C deployment ns n fit v ≡ true) (sym e)
          (found_good_of C deployment ns n fit _ (law.create_keeps w j o deployment ns n got) g)
    stays_fitting d w w' apart (updated j o p e target) h =
        let (q, got, g) = of_found_good C deployment ns n fit w h in
        subst (λ v. found_good C deployment ns n fit v ≡ true) (sym e)
          (found_good_of C deployment ns n fit _
            (law.update_others w j o ns n (λ k m. apart n (target k ∙ ap some m) refl) p got) g)

    abbrev pub deployment_entry : Entry C
    deployment_entry = record {
      step =
          create_or (at C deployment)
            (update_deployment (at C deployment) same_deployment with_spec)
            (λ _. instance.namespace) instance built;
      ready =
          found_good C deployment ns n
            (fitting (C.set_controller_reference instance deployment built));
      deploys = some n;
      key = (deployment, ns, n);
      there = λ w h.
          let (p, got, _) =
            of_found_good C deployment ns n
              (fitting (C.set_controller_reference instance deployment built)) w h in
          (p, got);
      calm =
          entry_calm C law deployment
            (update_deployment (at C deployment) same_deployment with_spec)
            (λ _. instance.namespace) instance (λ _. built) ns n
            (fitting (C.set_controller_reference instance deployment built)) (some n)
            update_deployment-IsLawful;
      works =
          entry_works C law deployment
            (update_deployment (at C deployment) same_deployment with_spec)
            (λ _. instance.namespace) instance (λ _. built) ns n
            (fitting (C.set_controller_reference instance deployment built)) (some n)
            update_deployment-IsLawful;
      changes =
          entry_changes C law deployment
            (update_deployment (at C deployment) same_deployment with_spec)
            (λ _. instance.namespace) instance (λ _. built) ns n
            (fitting (C.set_controller_reference instance deployment built)) (some n)
            update_deployment-IsLawful;
      adds =
          entry_adds C law deployment
            (update_deployment (at C deployment) same_deployment with_spec)
            (λ _. instance.namespace) instance (λ _. built) ns n
            (fitting (C.set_controller_reference instance deployment built)) (some n)
            update_deployment-IsLawful;
      stays_there =
          stays_found C law instance deployment (λ _. instance.namespace) (λ _. built) ns n key;
      stays = stays_fitting;
    }
