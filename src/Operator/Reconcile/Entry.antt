-- ===== src/Operator/Reconcile/Entry.antt =====
-- What a handler that creates leaves for itself (integrity-shield-operator/controllers/integrityshield.go).
use integrity_shield.Base.{
  Str, Bool, true, false, Option, none, some, ok, err, Error, is_already_exists, ◌⊎◌, refl,
  ok-injective, err-ne-ok, ◌≡◌, sym, ap, subst, ◌∙◌, inl, inr,
}
use integrity_shield.Operator.Objects.{Kind}
use integrity_shield.Operator.Types.{IntegrityShield}
use integrity_shield.Operator.Deletion.{requeue_soon}
use integrity_shield.Operator.Creation.{Pass, requeue_now, create_or, create_missing}
use integrity_shield.Operator.Creation.Cases.{
  fails, finds, misses, create_or-Case, create_missing_cases,
}
use integrity_shield.Operator.Client.{Client, ObjectOf, meta_of, at}
use integrity_shield.Operator.Reconcile.Laws.{Kept, Found, is_cluster_wide, ClientIsLawful}
use integrity_shield.Operator.Reconcile.Entries.{
  Change, created, found_good, found_good_of, not_found_good, of_found_good,
}

-- The key under which a handler looks is the one under which its object is stored, an object that
-- is stored passes the test, and what is done with an object that is there does its part.
pub record PresentIsLawful {Cluster : Type 0} (C : Client Cluster) (k : Kind)
    (present : ObjectOf k → ObjectOf k → Cluster → Pass (at C k)) (namespace_of : ObjectOf k → Str)
    (instance : IntegrityShield) (built : Cluster → ObjectOf k) (ns n : Str)
    (good : ObjectOf k → Bool) (d : Option Str) : Type 0 where
  pub looks :
      (w : Cluster) {expected : ObjectOf k}
      → C.set_controller_reference instance k (built w) ≡ ok expected
      → (v : Cluster) → C.get v k (namespace_of expected) (meta_of k expected).name ≡ C.get v k ns n
  pub lands :
      (w : Cluster) {expected : ObjectOf k}
      → C.set_controller_reference instance k (built w) ≡ ok expected
      → (v : Cluster)
      → C.get v k (meta_of k expected).namespace (meta_of k expected).name ≡ C.get v k ns n
  pub titled :
      (w : Cluster) {expected : ObjectOf k}
      → C.set_controller_reference instance k (built w) ≡ ok expected
      → (meta_of k expected).name ≡ n
  pub present_adds :
      (w : Cluster) {expected found : ObjectOf k} (j : Kind) (m : Str)
      → C.get w k ns n ≡ ok found
      → is_cluster_wide j ≡ true
      → Found C (present expected found w).1 j m
      → Found C w j m ⊎ ((j ≡ k) × (m ≡ n))
  pub fits :
      (w : Cluster) {expected : ObjectOf k}
      → C.set_controller_reference instance k (built w) ≡ ok expected
      → (p : ObjectOf k) → Kept k expected p
      → good p ≡ true
  pub present_calm :
      (w : Cluster) {expected found : ObjectOf k}
      → C.set_controller_reference instance k (built w) ≡ ok expected
      → good found ≡ true
      → (present expected found w).0.0.requeue ≡ true
      → ⊥
  pub present_works :
      (w : Cluster) {expected found : ObjectOf k}
      → C.set_controller_reference instance k (built w) ≡ ok expected
      → C.get w k ns n ≡ ok found
      → (present expected found w).0.1 ≡ none
      → found_good C k ns n good (present expected found w).1 ≡ true
  pub present_changes :
      (w : Cluster) {expected found : ObjectOf k}
      → C.set_controller_reference instance k (built w) ≡ ok expected
      → C.get w k ns n ≡ ok found
      → (present expected found w).0.1 ≡ none
      → Change C d w (present expected found w).1

module _ {Cluster : Type 0} (C : Client Cluster) (law : ClientIsLawful C) (k : Kind)
    (present : ObjectOf k → ObjectOf k → Cluster → Pass (at C k)) (namespace_of : ObjectOf k → Str)
    (instance : IntegrityShield) (built : Cluster → ObjectOf k) (ns n : Str)
    (good : ObjectOf k → Bool) (d : Option Str)
    (own : PresentIsLawful C k present namespace_of instance built ns n good d) where
  abbrev step : Cluster → Pass (at C k)
  step w = create_or (at C k) present namespace_of instance (built w) w

  abbrev ready : Cluster → Bool
  ready = found_good C k ns n good

  some-ne-none : {e : Error} {o : Option Error} → o ≡ some e → o ≡ none → ⊥
  some-ne-none p q = cc

  false-ne-true : {b : Bool} → b ≡ false → b ≡ true → ⊥
  false-ne-true p q = cc

  abbrev requeue_of : Pass (at C k) → Bool
  requeue_of a = a.0.0.requeue

  pub entry_calm :
      (w : Cluster)
      → found_good C k ns n good w ≡ true
      → (create_or (at C k) present namespace_of instance (built w) w).0.0.requeue ≡ true
      → ⊥
  entry_calm w h q =
      let (p, got, g) = of_found_good C k ns n good w h in
      elim (create_or-Case (at C k) present namespace_of instance (built w) w) [
        | fails e r ↦ false-ne-true (ap requeue_of r) q
        | finds expected found o f r ↦
            own.present_calm w o
              (subst (λ x. good x ≡ true) (ok-injective (sym got ∙ (sym (own.looks w o w) ∙ f))) g)
              (sym (ap requeue_of r) ∙ q)
        | misses expected e o m f r ↦ err-ne-ok (sym m ∙ (own.looks w o w ∙ got))
      ]

  module _ (w : Cluster) {expected : ObjectOf k}
      (o : C.set_controller_reference instance k (built w) ≡ ok expected) where
    abbrev made : Pass (at C k)
    made = create_missing (at C k) expected w

    made_ready : (C.create w k expected).0 ≡ none → ready (C.create w k expected).1 ≡ true
    made_ready p =
        let (q, got, g) = law.get-create w k expected p in
        found_good_of C k ns n good (C.create w k expected).1 (sym (own.lands w o _) ∙ got)
          (own.fits w o q g)

    made_there :
        {f : Error}
        → (C.create w k expected).0 ≡ some f
        → is_already_exists f ≡ true
        → found_good C k ns n (λ _. true) (C.create w k expected).1 ≡ true
    made_there p q =
        let (_, got) = law.exists_found w k expected p q in
        found_good_of C k ns n (λ _. true) (C.create w k expected).1 (sym (own.lands w o _) ∙ got)
          refl

    -- What holds of a creation that succeeds, and of one of an object that exists already, holds
    -- of every creation without an error.
    made_fine :
        (P : Pass (at C k) → Type 0)
        → ((C.create w k expected).0 ≡ none → P ((requeue_soon, none), (C.create w k expected).1))
        → ((f : Error)
            → (C.create w k expected).0 ≡ some f
            → is_already_exists f ≡ true
            → P ((requeue_now, none), (C.create w k expected).1))
        → made.0.1 ≡ none
        → P made
    made_fine P h late fine = elim (create_missing_cases (at C k) expected w) [
      | inl (p, r) ↦ subst P (sym r) (h p)
      | inr (inl (e, p, q, r)) ↦ subst P (sym r) (late e p q)
      | inr (inr (e, r)) ↦ absurd (some-ne-none (ap (λ (a : Pass (at C k)). a.0.1) r) fine)
    ]

  step_fine :
      (P : Pass (at C k) → Type 0) (w : Cluster)
      → ((expected found : ObjectOf k)
          → C.set_controller_reference instance k (built w) ≡ ok expected
          → C.get w k ns n ≡ ok found
          → (present expected found w).0.1 ≡ none
          → P (present expected found w))
      → ((expected : ObjectOf k)
          → C.set_controller_reference instance k (built w) ≡ ok expected
          → (C.create w k expected).0 ≡ none
          → P ((requeue_soon, none), (C.create w k expected).1))
      → ((expected : ObjectOf k) (e f : Error)
          → C.set_controller_reference instance k (built w) ≡ ok expected
          → C.get w k ns n ≡ err e
          → (C.create w k expected).0 ≡ some f
          → is_already_exists f ≡ true
          → P ((requeue_now, none), (C.create w k expected).1))
      → (step w).0.1 ≡ none
      → P (step w)
  step_fine P w if_found if_made if_late fine =
      elim (create_or-Case (at C k) present namespace_of instance (built w) w) [
        | fails e r ↦ absurd (some-ne-none (ap (λ (a : Pass (at C k)). a.0.1) r) fine)
        | finds expected found o f r ↦ subst P (sym r) (
            if_found expected found o (sym (own.looks w o w) ∙ f)
              (sym (ap (λ (a : Pass (at C k)). a.0.1) r) ∙ fine))
        | misses expected e o m f r ↦ subst P (sym r) (
            made_fine w o P (if_made expected o)
              (λ f. if_late expected e f o (sym (own.looks w o w) ∙ m))
              (sym (ap (λ (a : Pass (at C k)). a.0.1) r) ∙ fine))
      ]

  pub entry_works :
      (w : Cluster)
      → (create_or (at C k) present namespace_of instance (built w) w).0.1 ≡ none
      → (found_good C k ns n good (create_or (at C k) present namespace_of instance (built w) w).1
          ≡ true)
        ⊎ (((create_or (at C k) present namespace_of instance (built w) w).0.0.requeue ≡ true)
            × (found_good C k ns n (λ _. true) w ≡ false)
            × (found_good C k ns n
                  (λ _. true)
                  (create_or (at C k) present namespace_of instance (built w) w).1
                ≡ true))
  entry_works w =
      step_fine
        (λ a.
          (ready a.1 ≡ true)
          ⊎ ((a.0.0.requeue ≡ true)
              × (found_good C k ns n (λ _. true) w ≡ false)
              × (found_good C k ns n (λ _. true) a.1 ≡ true)))
        w (λ _ _ o f fine. inl (own.present_works w o f fine)) (λ _ o p. inl (made_ready w o p))
        (λ _ _ _ o m p q. inr (refl, not_found_good C k ns n (λ _. true) w m, made_there w o p q))

  pub entry_changes :
      (w : Cluster)
      → (create_or (at C k) present namespace_of instance (built w) w).0.1 ≡ none
      → Change C d w (create_or (at C k) present namespace_of instance (built w) w).1
  entry_changes w =
      step_fine (λ a. Change C d w a.1) w (λ _ _ o f. own.present_changes w o f)
        (λ expected _ _. created k expected refl) (λ expected _ _ _ _ _ _. created k expected refl)

  module _ (w : Cluster) (j : Kind) (m : Str) (wide : is_cluster_wide j ≡ true) where
    abbrev Known : Cluster → Type 0
    Known v = Found C v j m → Found C w j m ⊎ ((j ≡ k) × (m ≡ n))

    made_adds :
        {expected : ObjectOf k}
        → C.set_controller_reference instance k (built w) ≡ ok expected
        → Known (create_missing (at C k) expected w).1
    made_adds {expected} o = elim (create_missing_cases (at C k) expected w) [
      | inl (_, r) ↦ subst (λ (a : Pass (at C k)). Known a.1) (sym r) new
      | inr (inl (_, _, _, r)) ↦ subst (λ (a : Pass (at C k)). Known a.1) (sym r) new
      | inr (inr (_, r)) ↦ subst (λ (a : Pass (at C k)). Known a.1) (sym r) new
    ]
      where
        new : Known (C.create w k expected).1
        new found = elim (law.create_only w k expected j m wide found) [
          | inl before ↦ inl before
          | inr (e, p) ↦ inr (e, p ∙ own.titled w o)
        ]

    pub entry_adds :
        Found C (create_or (at C k) present namespace_of instance (built w) w).1 j m
        → Found C w j m ⊎ ((j ≡ k) × (m ≡ n))
    entry_adds = elim (create_or-Case (at C k) present namespace_of instance (built w) w) [
      | fails e r ↦ subst (λ (a : Pass (at C k)). Known a.1) (sym r) (λ found. inl found)
      | finds expected found o f r ↦
          subst (λ (a : Pass (at C k)). Known a.1) (sym r)
            (own.present_adds w j m (sym (own.looks w o w) ∙ f) wide)
      | misses expected e o _ _ r ↦ subst (λ (a : Pass (at C k)). Known a.1) (sym r) (made_adds o)
    ]
