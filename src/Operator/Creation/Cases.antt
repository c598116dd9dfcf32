-- ===== src/Operator/Creation/Cases.antt =====
-- What the handlers that create come to (integrity-shield-operator/controllers/integrityshield.go).
use integrity_shield.Base.{
  Str, ◌≡◌, true, false, Option, none, some, ok, err, Error, is_not_found, is_already_exists, arith,
  ◌⊎◌, inl, inr, Bool-cases, Option-cases, Result-cases,
}
use integrity_shield.Operator.Types.{IntegrityShield}
use integrity_shield.Operator.Deletion.{no_requeue, requeue_soon}
use integrity_shield.Operator.Creation.{KindApi, Pass, requeue_now, create_missing, create_or}

module _ {Cluster : Type 0} (A : KindApi Cluster) where
  module _ (present : A.Object → A.Object → Cluster → Pass A) (namespace_of : A.Object → Str)
      (instance : IntegrityShield) (built : A.Object) (w : Cluster) where
    abbrev answer : Pass A
    answer = create_or A present namespace_of instance built w

    create_or_unowned :
        (e : Error)
        → A.set_controller_reference instance built ≡ err e
        → answer ≡ ((no_requeue, some e), w)
    unfolding create_or
    create_or_unowned e p = ground arith

    create_or_missing :
        (expected : A.Object) (e : Error)
        → A.set_controller_reference instance built ≡ ok expected
        → A.get w (namespace_of expected) (A.name expected) ≡ err e
        → is_not_found e ≡ true
        → answer ≡ create_missing A expected w
    unfolding create_or
    create_or_missing expected e o m f = ground arith

    create_or_unread :
        (expected : A.Object) (e : Error)
        → A.set_controller_reference instance built ≡ ok expected
        → A.get w (namespace_of expected) (A.name expected) ≡ err e
        → is_not_found e ≡ false
        → answer ≡ ((no_requeue, some e), w)
    unfolding create_or
    create_or_unread expected e o m f = ground arith

    create_or_found :
        (expected found : A.Object)
        → A.set_controller_reference instance built ≡ ok expected
        → A.get w (namespace_of expected) (A.name expected) ≡ ok found
        → answer ≡ present expected found w
    unfolding create_or
    create_or_found expected found o f = ground arith

    -- A handler fails, or does what it does to an object that is there, or creates the object.
    pub data Case : Type 0 where
      fails :
          (e : Error)
          → create_or A present namespace_of instance built w ≡ ((no_requeue, some e), w)
          → Case
      finds :
          (expected found : A.Object)
          → A.set_controller_reference instance built ≡ ok expected
          → A.get w (namespace_of expected) (A.name expected) ≡ ok found
          → create_or A present namespace_of instance built w ≡ present expected found w
          → Case
      misses :
          (expected : A.Object) (e : Error)
          → A.set_controller_reference instance built ≡ ok expected
          → A.get w (namespace_of expected) (A.name expected) ≡ err e
          → is_not_found e ≡ true
          → create_or A present namespace_of instance built w ≡ create_missing A expected w
          → Case

    pub create_or-Case : Case
    create_or-Case = elim (Result-cases (A.set_controller_reference instance built)) [
      | inr (e, p) ↦ fails e (create_or_unowned e p)
      | inl (expected, o) ↦
          elim (Result-cases (A.get w (namespace_of expected) (A.name expected))) [
            | inl (found, f) ↦ finds expected found o f (create_or_found expected found o f)
            | inr (e, m) ↦ elim (Bool-cases (is_not_found e)) [
              | inl f ↦ misses expected e o m f (create_or_missing expected e o m f)
              | inr f ↦ fails e (create_or_unread expected e o m f)
            ]
          ]
    ]

  module _ (expected : A.Object) (w : Cluster) where
    abbrev made : Option Error × Cluster
    made = A.create w expected

    create_missing_made :
        made.0 ≡ none → create_missing A expected w ≡ ((requeue_soon, none), made.1)
    unfolding create_missing
    create_missing_made p = ground arith

    create_missing_late :
        (e : Error)
        → made.0 ≡ some e
        → is_already_exists e ≡ true
        → create_missing A expected w ≡ ((requeue_now, none), made.1)
    unfolding create_missing
    create_missing_late e p q = ground arith

    create_missing_failed :
        (e : Error)
        → made.0 ≡ some e
        → is_already_exists e ≡ false
        → create_missing A expected w ≡ ((no_requeue, some e), made.1)
    unfolding create_missing
    create_missing_failed e p q = ground arith

    -- A creation succeeds, meets an object that was not there before, or fails.
    pub create_missing_cases :
        (((A.create w expected).0 ≡ none)
          × (create_missing A expected w ≡ ((requeue_soon, none), (A.create w expected).1)))
        ⊎ (((e : Error) × ((A.create w expected).0 ≡ some e)
              × (is_already_exists e ≡ true)
              × (create_missing A expected w ≡ ((requeue_now, none), (A.create w expected).1)))
            ⊎ ((e : Error) × (create_missing A expected w
                  ≡ ((no_requeue, some e), (A.create w expected).1))))
    create_missing_cases = elim (Option-cases (made.0)) [
      | inl p ↦ inl (p, create_missing_made p)
      | inr (e, p) ↦ elim (Bool-cases (is_already_exists e)) [
        | inl q ↦ inr (inl (e, p, q, create_missing_late e p q))
        | inr q ↦ inr (inr (e, create_missing_failed e p q))
      ]
    ]
