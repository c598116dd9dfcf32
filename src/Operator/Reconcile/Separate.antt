-- ===== src/Operator/Reconcile/Separate.antt =====
-- Handlers that do not undo each other's work
-- (integrity-shield-operator/controllers/integrityshield.go).
use integrity_shield.Base.{
  Str, true, false, refl, List, [], ◌∷◌, map, Memᴰ, Option, none, some, ◌≡◌, ◌≢◌, sym, subst, ◌∙◌,
  ◌⊎◌, inl, inr,
}
use mathlib.Core.List.Memᴰ.{of_map}
use integrity_shield.Operator.Client.{Client}
use integrity_shield.Operator.Reconcile.Entries.{Entry, Differ, found_good, found_good_of}
use integrity_shield.Operator.Reconcile.Rounds.{Task, TasksAreLawful}

module _ {Cluster : Type 0} (C : Client Cluster) where
  abbrev pub task : Entry C → Task Cluster
  task e = record {
    step = e.step;
    there = found_good C e.key.0 e.key.1 e.key.2 (λ _. true);
    ready = e.ready;
  }

  -- No two entries of a list update a deployment of the same name.
  pub data Avoids (d : Option Str) : List (Entry C) → Type 0 where
    avoids_none : Avoids d []
    avoids_next :
        {e : Entry C} {es : List (Entry C)} → Differ C d e.deploys → Avoids d es → Avoids d (e ∷ es)

  pub data Apart : List (Entry C) → Type 0 where
    apart_none : Apart []
    apart_next :
        {e : Entry C} {es : List (Entry C)} → Avoids e.deploys es → Apart es → Apart (e ∷ es)

  pub Differ-none : {d : Option Str} → Differ C none d
  Differ-none n p q = none-ne-some p
    where
      none-ne-some : {n : Str} → none ≡ some n → ⊥
      none-ne-some p = cc

  pub Differ-sym : {d e : Option Str} → Differ C d e → Differ C e d
  Differ-sym h n p q = h n q p

  pub Differ-plain : {d : Option Str} → Differ C d none
  Differ-plain = Differ-sym Differ-none

  pub Differ-some : {a b : Str} → a ≢ b → Differ C (some a) (some b)
  Differ-some h n p q = h (some-injective (p ∙ sym q))
    where
      some-injective : {a b : Str} → some a ≡ some b → a ≡ b
      some-injective p = cc

  pub Avoids-none : (es : List (Entry C)) → Avoids none es
  Avoids-none [] = avoids_none
  Avoids-none (e ∷ es) = avoids_next Differ-none (Avoids-none es)

  avoids :
      {d : Option Str} {es : List (Entry C)} {f : Entry C}
      → Avoids d es
      → Memᴰ f es
      → Differ C d f.deploys
  avoids avoids_none m = elim m [ ]
  avoids {d} (avoids_next h r) (Memᴰ.head p) =
      subst (λ (f : Entry C). Differ C d f.deploys) (sym p) h
  avoids (avoids_next h r) (Memᴰ.tail m) = avoids r m

  apart :
      {es : List (Entry C)} {e f : Entry C}
      → Apart es
      → Memᴰ e es
      → Memᴰ f es
      → (e ≡ f) ⊎ Differ C e.deploys f.deploys
  apart apart_none m k = elim m [ ]
  apart (apart_next a r) (Memᴰ.head p) (Memᴰ.head q) = inl (p ∙ sym q)
  apart {f} (apart_next a r) (Memᴰ.head p) (Memᴰ.tail m) =
      inr (subst (λ (e : Entry C). Differ C e.deploys f.deploys) (sym p) (avoids a m))
  apart {e} (apart_next a r) (Memᴰ.tail m) (Memᴰ.head p) =
      inr (Differ-sym (subst (λ (f : Entry C). Differ C f.deploys e.deploys) (sym p) (avoids a m)))
  apart (apart_next a r) (Memᴰ.tail m) (Memᴰ.tail k) = apart r m k

  -- An entry's object stays through the step of another entry, or of the entry itself.
  Stays : Task Cluster → Task Cluster → Type 0
  Stays s t = (w : Cluster) → (t.step w).0.1 ≡ none → s.ready w ≡ true → s.ready (t.step w).1 ≡ true

  StaysThere : Task Cluster → Task Cluster → Type 0
  StaysThere s t =
      (w : Cluster) → (t.step w).0.1 ≡ none → s.there w ≡ true → s.there (t.step w).1 ≡ true

  entry-Stays : (e f : Entry C) → (e ≡ f) ⊎ Differ C f.deploys e.deploys → Stays (task e) (task f)
  unfolding Stays
  entry-Stays e f (inl p) w fine r = elim (f.works w fine) [
    | inl good ↦ subst (λ (e : Entry C). e.ready (f.step w).1 ≡ true) (sym p) good
    | inr (_, absent, _) ↦
        absurd (there-not w (subst (λ (e : Entry C). e.ready w ≡ true) p r) absent)
  ]
    where
      true-ne-false : true ≡ false → ⊥
      true-ne-false p = cc

      there-not :
          (w : Cluster)
          → f.ready w ≡ true
          → found_good C f.key.0 f.key.1 f.key.2 (λ _. true) w ≡ false
          → ⊥
      there-not w r absent =
          let (_, got) = f.there w r in
          true-ne-false
            (sym (found_good_of C f.key.0 f.key.1 f.key.2 (λ _. true) w got refl) ∙ absent)
  entry-Stays e f (inr h) w fine r = e.stays f.deploys w (f.step w).1 h (f.changes w fine) r

  apart_either :
      {e f : Entry C}
      → (e ≡ f) ⊎ Differ C e.deploys f.deploys
      → (e ≡ f) ⊎ Differ C f.deploys e.deploys
  apart_either (inl p) = inl p
  apart_either (inr h) = inr (Differ-sym h)

  pub tasks-IsLawful : (es : List (Entry C)) → Apart es → TasksAreLawful (map task es)
  unfolding Stays StaysThere
  tasks-IsLawful es a = record {
    calm = λ m.
        let (e, _, p) = of_map task es m in
        subst
          (λ (t : Task Cluster).
            (w : Cluster) → t.ready w ≡ true → (t.step w).0.0.requeue ≡ true → ⊥)
          p e.calm;
    works = λ m.
        let (e, _, p) = of_map task es m in
        subst
          (λ (t : Task Cluster).
            (w : Cluster)
            → (t.step w).0.1 ≡ none
            → (t.ready (t.step w).1 ≡ true)
              ⊎ (((t.step w).0.0.requeue ≡ true)
                  × (t.there w ≡ false)
                  × (t.there (t.step w).1 ≡ true)))
          p e.works;
    stays_there = λ {s} {t} m k.
        let (e, _, p) = of_map task es m in
        let (f, _, q) = of_map task es k in
        subst (λ (s : Task Cluster). StaysThere s t) p
          (subst (λ (t : Task Cluster). StaysThere (task e) t) q
            (λ w fine. e.stays_there f.deploys w (f.step w).1 (f.changes w fine)));
    stays = λ {s} {t} m k.
        let (e, me, p) = of_map task es m in
        let (f, mf, q) = of_map task es k in
        subst (λ (s : Task Cluster). Stays s t) p
          (subst (λ (t : Task Cluster). Stays (task e) t) q
            (entry-Stays e f (apart_either (apart a me mf))));
  }
