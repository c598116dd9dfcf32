-- ===== src/Operator/Reconcile/Steps.antt =====
-- Handlers that run one after the other, until one fails or asks for another pass
-- (integrity-shield-operator/controllers/integrityshield_controller.go).
use integrity_shield.Base.{
  true, false, Bool-cases, List, [], ◌∷◌, ◌++◌, Option, none, some, Option-cases, Error, ◌≡◌, refl,
  ◌∙◌, ◌⊎◌, inl, inr, arith,
}
use integrity_shield.Operator.Deletion.{RecResult}
use integrity_shield.Operator.Reconcile.{run_handlers}

abbrev pub Step : Type 0 → Type 0
Step W = W → (RecResult × Option Error) × W

module _ {W : Type 0} (s : Step W) (ss : List (Step W)) (w : W) where
  pub run_failed : {e : Error} → (s w).0.1 ≡ some e → (run_handlers (s ∷ ss) w).0.1 ≡ some e
  unfolding run_handlers
  run_failed p = ground arith

  pub run_stopped : (s w).0.1 ≡ none → (s w).0.0.requeue ≡ true → run_handlers (s ∷ ss) w ≡ s w
  unfolding run_handlers
  run_stopped p q = ground arith

  pub run_passed :
      (s w).0.1 ≡ none
      → (s w).0.0.requeue ≡ false
      → run_handlers (s ∷ ss) w ≡ run_handlers ss (s w).1
  unfolding run_handlers
  run_passed p q = ground arith

  -- The cluster is the one that the first step leaves, or the others go on from it.
  pub run_ends :
      ((run_handlers (s ∷ ss) w).1 ≡ (s w).1)
      ⊎ ((run_handlers (s ∷ ss) w).1 ≡ (run_handlers ss (s w).1).1)
  unfolding run_handlers
  run_ends = elim (Option-cases ((s w).0.1)) [
    | inr (e, p) ↦ inl (ground arith)
    | inl p ↦ elim (Bool-cases ((s w).0.0.requeue)) [
      | inl q ↦ inl (ground arith)
      | inr q ↦ inr (ground arith)
    ]
  ]

module _ {W : Type 0} where
  -- What a further step does after an answer.
  abbrev and_then : (RecResult × Option Error) × W → Step W → (RecResult × Option Error) × W
  and_then r f = elim (r.0.1) [
    | some e ↦ ((r.0.0, some e), r.1)
    | none ↦ elim (r.0.0.requeue) [ true ↦ ((r.0.0, none), r.1) | false ↦ f r.1 ]
  ]

  run-append :
      (vs ss : List (Step W)) (w : W)
      → run_handlers (ss ++ vs) w ≡ and_then (run_handlers ss w) (run_handlers vs)
  unfolding run_handlers
  run-append vs [] w = refl
  run-append vs (s ∷ ss) w = elim (Option-cases ((s w).0.1)) [
    | inr (e, q) ↦ rw q refl
    | inl q ↦ elim (Bool-cases ((s w).0.0.requeue)) [
      | inl r ↦ ground arith
      | inr r ↦ rw q (rw r (run-append vs ss (s w).1))
    ]
  ]

  module _ (vs ss : List (Step W)) (w : W) where
    pub append_failed :
        {e : Error} → (run_handlers ss w).0.1 ≡ some e → (run_handlers (ss ++ vs) w).0.1 ≡ some e
    append_failed p = rw (run-append vs ss w) (rw p refl)

    pub append_stopped :
        (run_handlers ss w).0.1 ≡ none
        → (run_handlers ss w).0.0.requeue ≡ true
        → run_handlers (ss ++ vs) w ≡ run_handlers ss w
    append_stopped p q = run-append vs ss w ∙ ground arith

    pub append_passed :
        (run_handlers ss w).0.1 ≡ none
        → (run_handlers ss w).0.0.requeue ≡ false
        → run_handlers (ss ++ vs) w ≡ run_handlers vs (run_handlers ss w).1
    append_passed p q = run-append vs ss w ∙ ground arith
