-- ===== src/Operator/Creation/Passes.antt =====
-- What one pass of a handler leaves to the next (integrity-shield-operator/controllers/integrityshield.go).
use integrity_shield.Base.{
  Str, ◌≡◌, ap, subst, true, false, none, some, ok, Error, inl, inr, sym, ◌∙◌,
}
use integrity_shield.Operator.Types.{IntegrityShield}
use integrity_shield.Operator.Deletion.{no_requeue}
use integrity_shield.Operator.Creation.{KindApi, Pass, create_missing, create_or, left_alone}
use integrity_shield.Operator.Creation.Cases.{
  fails, finds, misses, create_or-Case, create_missing_cases,
}

module _ {Cluster : Type 0} (A : KindApi Cluster) (namespace_of : A.Object → Str)
    (instance : IntegrityShield) (built : A.Object) (w : Cluster) where
  -- A pass that neither fails nor asks for another.
  abbrev Settles : Pass A → Type 0
  Settles a = (a.0.0.requeue ≡ false) × (a.0.1 ≡ none)

  failed_unsettled :
      {a : Pass A} {e : Error} {v : Cluster} → a ≡ ((no_requeue, some e), v) → Settles a → ⊥
  failed_unsettled {a} {e} {v} p h = some-ne-none (sym (ap (λ (a : Pass A). a.0.1) p) ∙ h.1)
    where
      some-ne-none : {e : Error} → some e ≡ none → ⊥
      some-ne-none p = cc

  true-ne-false : true ≡ false → ⊥
  true-ne-false p = cc

  created_unsettled : (expected : A.Object) → Settles (create_missing A expected w) → ⊥
  created_unsettled expected h = elim (create_missing_cases A expected w) [
    | inl (_, p) ↦ true-ne-false (sym (ap (λ (a : Pass A). a.0.0.requeue) p) ∙ h.0)
    | inr (inl (_, _, _, p)) ↦ true-ne-false (sym (ap (λ (a : Pass A). a.0.0.requeue) p) ∙ h.0)
    | inr (inr (_, p)) ↦ failed_unsettled p h
  ]

  -- A pass of the handlers that update nothing settles, with neither an error nor a requeue, only
  -- where the object is there already, and then it leaves the cluster as it is.
  pub create_or_settled :
      (create_or A (left_alone A) namespace_of instance built w).0.0.requeue ≡ false
      → (create_or A (left_alone A) namespace_of instance built w).0.1 ≡ none
      → (expected : A.Object) × (found : A.Object) × (A.set_controller_reference instance built
          ≡ ok expected)
        × (A.get w (namespace_of expected) (A.name expected) ≡ ok found)
        × ((create_or A (left_alone A) namespace_of instance built w).1 ≡ w)
  unfolding left_alone
  create_or_settled still fine =
      elim (create_or-Case A (left_alone A) namespace_of instance built w) [
        | fails e p ↦ absurd (failed_unsettled p (still, fine))
        | finds expected found o f p ↦ (expected, found, o, f, ap (λ (a : Pass A). a.1) p)
        | misses expected e o m f p ↦
            absurd (created_unsettled expected (subst (λ a. Settles a) p (still, fine)))
      ]
