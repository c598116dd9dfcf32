-- ===== src/Operator/Reconcile/Rounds.antt =====
-- Handlers that run one after the other, pass after pass, until none asks for another
-- (integrity-shield-operator/controllers/integrityshield_controller.go).
use integrity_shield.Base.{
  lacking, lacking-length, lacking_mono, lacking_lt, ℕ, zero, suc, ◌≤◌, ◌<◌, ◌+◌, Bool, true, false,
  Bool-cases, List, [], ◌∷◌, ◌++◌, length, map, Memᴰ, Option, none, some, Option-cases, Error, ◌≡◌,
  refl, sym, subst, ◌⊎◌, inl, inr, arith,
}
use integrity_shield.Operator.Deletion.{RecResult}
use integrity_shield.Operator.Reconcile.{run_handlers}
use integrity_shield.Operator.Reconcile.Steps.{
  Step, run_failed, run_stopped, run_passed, append_failed, append_stopped, append_passed,
}

-- A handler, whether the cluster has its object, and whether it has it as it should be.
pub record Task (W : Type 0) : Type 0 where
  pub step : Step W
  pub there : W → Bool
  pub ready : W → Bool

abbrev pub steps_of : {W : Type 0} → List (Task W) → List (Step W)
steps_of ts = map (λ (t : Task _). t.step) ts

-- A handler whose object is as it should be asks for no other pass; one that reports no error
-- leaves its object so, or asks for another pass since an object is there that was not there
-- before; and no handler that reports no error takes away what another one is for.
pub record TasksAreLawful {W : Type 0} (ts : List (Task W)) : Type 0 where
  pub calm :
      {t : Task W} → Memᴰ t ts → (w : W) → t.ready w ≡ true → (t.step w).0.0.requeue ≡ true → ⊥
  pub works :
      {t : Task W}
      → Memᴰ t ts
      → (w : W) → (t.step w).0.1 ≡ none
      → (t.ready (t.step w).1 ≡ true)
        ⊎ (((t.step w).0.0.requeue ≡ true) × (t.there w ≡ false) × (t.there (t.step w).1 ≡ true))
  pub stays_there :
      {s t : Task W}
      → Memᴰ s ts
      → Memᴰ t ts
      → (w : W) → (t.step w).0.1 ≡ none
      → s.there w ≡ true
      → s.there (t.step w).1 ≡ true
  pub stays :
      {s t : Task W}
      → Memᴰ s ts
      → Memᴰ t ts
      → (w : W) → (t.step w).0.1 ≡ none
      → s.ready w ≡ true
      → s.ready (t.step w).1 ≡ true

abbrev pub AllReady : {W : Type 0} → List (Task W) → W → Type 0
AllReady {W} us w = (t : Task W) → Memᴰ t us → t.ready w ≡ true

abbrev pub Settled : {W : Type 0} → (RecResult × Option Error) × W → Type 0
Settled r = (r.0.1 ≡ none) × (r.0.0.requeue ≡ false)

-- The cluster after some passes, whatever they answer.
abbrev pub after : {W : Type 0} → Step W → ℕ → W → W
after pass zero w = w
after pass (suc n) w = after pass n (pass w).1

-- Where a pass over some steps and a last one reports an error, or gets past the steps with the
-- object of each task there, so that it answers what the last step answers.
abbrev pub Ends : {W : Type 0} → List (Task W) → List (Step W) → Step W → W → Type 0
Ends ts ss last w =
    ((e : Error) × ((run_handlers (ss ++ (last ∷ [])) w).0.1 ≡ some e))
    ⊎ (AllReady ts (run_handlers ss w).1
        × (run_handlers (ss ++ (last ∷ [])) w ≡ run_handlers (last ∷ []) (run_handlers ss w).1))

module _ {W : Type 0} (ts : List (Task W)) (law : TasksAreLawful ts) where
  open law use {calm, works, stays, stays_there}

  abbrev pending : W → ℕ
  pending w = lacking (λ (t : Task W). t.there w) ts + lacking (λ (t : Task W). t.ready w) ts

  data Progress (w : W) (us : List (Task W)) (r : (RecResult × Option Error) × W) : Type 0 where
    failed : (e : Error) → r.0.1 ≡ some e → Progress w us r
    finished :
        Settled r
        → ((t : Task W) → Memᴰ t ts → t.ready w ≡ true → t.ready r.1 ≡ true)
        → AllReady us r.1
        → Progress w us r
    advanced : r.0.1 ≡ none → r.0.0.requeue ≡ true → pending r.1 < pending w → Progress w us r

  nothing_ready : (w : W) → AllReady [] w
  nothing_ready w t m = elim m [ ]

  ready_first :
      {t : Task W} {us : List (Task W)} {w : W}
      → t.ready w ≡ true
      → AllReady us w
      → AllReady (t ∷ us) w
  ready_first {w} p h s (Memᴰ.head e) = subst (λ (t : Task W). t.ready w ≡ true) (sym e) p
  ready_first p h s (Memᴰ.tail m) = h s m

  true-ne-false : {b : Bool} → b ≡ true → b ≡ false → ⊥
  true-ne-false p q = cc

  some-ne-none : {e : Error} {o : Option Error} → o ≡ some e → o ≡ none → ⊥
  some-ne-none p q = cc

  run-Progress :
      (us : List (Task W)) (w : W)
      → ((t : Task W) → Memᴰ t us → Memᴰ t ts)
      → Progress w us (run_handlers (steps_of us) w)
  unfolding run_handlers
  run-Progress [] w within = finished (refl, refl) (λ _ _ p. p) (nothing_ready w)
  run-Progress (t ∷ us) w within = elim (Option-cases ((t.step w).0.1)) [
    | inr (e, p) ↦ failed e (run_failed t.step (steps_of us) w p)
    | inl p ↦ elim (Bool-cases ((t.step w).0.0.requeue)) [
      | inl q ↦
          subst (Progress w (t ∷ us)) (sym (run_stopped t.step (steps_of us) w p q))
            (advanced p q (falls p q))
      | inr q ↦
          subst (Progress w (t ∷ us)) (sym (run_passed t.step (steps_of us) w p q))
            (passed p q (run-Progress us (t.step w).1 (λ s m. within s (Memᴰ.tail m))))
    ]
  ]
    where
      kept :
          (t.step w).0.1 ≡ none
          → (s : Task W) → Memᴰ s ts
          → s.ready w ≡ true
          → s.ready (t.step w).1 ≡ true
      kept p s m = stays m (within t (Memᴰ.head refl)) w p

      kept_there :
          (t.step w).0.1 ≡ none
          → (s : Task W) → Memᴰ s ts
          → s.there w ≡ true
          → s.there (t.step w).1 ≡ true
      kept_there p s m = stays_there m (within t (Memᴰ.head refl)) w p

      less_there :
          (t.step w).0.1 ≡ none
          → lacking (λ (s : Task W). s.there (t.step w).1) ts
            ≤ lacking (λ (s : Task W). s.there w) ts
      less_there p =
          lacking_mono (λ (s : Task W). s.there w) (λ (s : Task W). s.there (t.step w).1) ts
            (kept_there p)

      less_ready :
          (t.step w).0.1 ≡ none
          → lacking (λ (s : Task W). s.ready (t.step w).1) ts
            ≤ lacking (λ (s : Task W). s.ready w) ts
      less_ready p =
          lacking_mono (λ (s : Task W). s.ready w) (λ (s : Task W). s.ready (t.step w).1) ts
            (kept p)

      falls :
          (t.step w).0.1 ≡ none → (t.step w).0.0.requeue ≡ true → pending (t.step w).1 < pending w
      falls p q = elim (works (within t (Memᴰ.head refl)) w p) [
        | inr (_, absent, late) ↦ ground (
          arith,
          lacking_lt (λ (s : Task W). s.there w) (λ (s : Task W). s.there (t.step w).1) ts
              (kept_there p) (within t (Memᴰ.head refl)) absent late,
          less_ready p,
        )
        | inl good ↦ elim (Bool-cases (t.ready w)) [
          | inl r ↦ absurd (calm (within t (Memᴰ.head refl)) w r q)
          | inr r ↦ ground (
            arith,
            lacking_lt (λ (s : Task W). s.ready w) (λ (s : Task W). s.ready (t.step w).1) ts
                (kept p) (within t (Memᴰ.head refl)) r good,
            less_there p,
          )
        ]
      ]

      ready_after :
          (t.step w).0.1 ≡ none → (t.step w).0.0.requeue ≡ false → t.ready (t.step w).1 ≡ true
      ready_after p q = elim (works (within t (Memᴰ.head refl)) w p) [
        | inl good ↦ good
        | inr (asks, _, _) ↦ absurd (true-ne-false asks q)
      ]

      no_more : (t.step w).0.1 ≡ none → pending (t.step w).1 ≤ pending w
      no_more p = ground (arith, less_there p, less_ready p)

      passed :
          {r : (RecResult × Option Error) × W}
          → (t.step w).0.1 ≡ none
          → (t.step w).0.0.requeue ≡ false
          → Progress (t.step w).1 us r
          → Progress w (t ∷ us) r
      passed p _ (failed e f) = failed e f
      passed p _ (advanced n q lt) = advanced n q (ground (arith, no_more p, lt))
      passed p calmly (finished s keeps all) =
          finished s (λ u m r. keeps u m (kept p u m r))
            (ready_first (keeps t (within t (Memᴰ.head refl)) (ready_after p calmly)) all)

  pub Settled-AllReady :
      (ss : List (Step W))
      → steps_of ts ≡ ss
      → (w : W) → Settled (run_handlers ss w)
      → AllReady ts (run_handlers ss w).1
  Settled-AllReady ss e w =
      subst (λ ss. Settled (run_handlers ss w) → AllReady ts (run_handlers ss w).1) e
        (λ settled. elim (run-Progress ts w (λ _ m. m)) [
          | failed e p ↦ absurd (some-ne-none p settled.0)
          | finished _ _ all ↦ all
          | advanced _ q _ ↦ absurd (true-ne-false q settled.1)
        ])

  module _ (last : Step W) where
    abbrev pass : Step W
    pass w = run_handlers (steps_of ts ++ (last ∷ [])) w

    Ends-or_falls : (w : W) → Ends ts (steps_of ts) last w ⊎ (pending (pass w).1 < pending w)
    Ends-or_falls w = elim (run-Progress ts w (λ _ m. m)) [
      | failed e p ↦ inl (inl (e, append_failed (last ∷ []) (steps_of ts) w p))
      | finished s keeps all ↦ inl (inr (all, append_passed (last ∷ []) (steps_of ts) w s.0 s.1))
      | advanced p q lt ↦ inr (rw (append_stopped (last ∷ []) (steps_of ts) w p q) lt)
    ]

    passes-Ends :
        (n : ℕ) (w : W)
        → pending w ≤ n
        → (m : ℕ) × (m ≤ n) × Ends ts (steps_of ts) last (after pass m w)
    passes-Ends zero w h = elim (Ends-or_falls w) [
      | inl ends ↦ (0, ground arith, ends)
      | inr lt ↦ ground arith
    ]
    passes-Ends (suc n) w h = elim (Ends-or_falls w) [
      | inl ends ↦ (0, ground arith, ends)
      | inr lt ↦
          let (m, le, ends) = passes-Ends n (pass w).1 (ground arith) in (suc m, ground arith, ends)
    ]

  pub passes_end :
      (last : Step W) (ss : List (Step W))
      → steps_of ts ≡ ss
      → (w : W)
      → (m : ℕ) × (m ≤ length ts + length ts)
        × Ends ts ss last (after (run_handlers (ss ++ (last ∷ []))) m w)
  passes_end last ss e w =
      subst
        (λ ss.
          (m : ℕ) × (m ≤ length ts + length ts)
          × Ends ts ss last (after (run_handlers (ss ++ (last ∷ []))) m w))
        e
        (passes-Ends last (length ts + length ts) w (
          ground (
            arith,
            lacking-length (λ (t : Task W). t.there w) ts,
            lacking-length (λ (t : Task W). t.ready w) ts,
          )))
