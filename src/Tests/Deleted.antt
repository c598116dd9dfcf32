-- ===== src/Tests/Deleted.antt =====
-- The API server in memory does what `DeleteIsLawful` asks for.
use integrity_shield.Base.{
  Bool, true, false, Bool-cases, [], ◌∷◌, none, some, Option-cases, ok, err-ne-ok, ◌≡◌, sym, subst,
  ◌∙◌, inl, inr, arith,
}
use integrity_shield.Operator.Objects.{Kind}
use integrity_shield.Operator.Client.{ObjectOf, meta_of}
use integrity_shield.Operator.Reconcile.Laws.{DeleteIsLawful}
use integrity_shield.Tests.Objects.{
  Object, Objects, as_kind, pick, at_key, drop_object, pick_here, pick_past, pick_other,
  pick-passes,
}
use integrity_shield.Tests.Lawful.{objects, at-name, any_place}

module _ (k : Kind) (t : ObjectOf k → Bool) (os : Objects) (o : Object) where
  drop_other : as_kind o.0 k o.1 ≡ none → drop_object (o ∷ os) k t ≡ o ∷ drop_object os k t
  unfolding drop_object
  drop_other p = ground arith

  drop_hit :
      {q : ObjectOf k}
      → as_kind o.0 k o.1 ≡ some q
      → t q ≡ true
      → drop_object (o ∷ os) k t ≡ drop_object os k t
  unfolding drop_object
  drop_hit p g = ground arith

  drop_miss :
      {q : ObjectOf k}
      → as_kind o.0 k o.1 ≡ some q
      → t q ≡ false
      → drop_object (o ∷ os) k t ≡ o ∷ drop_object os k t
  unfolding drop_object
  drop_miss p g = ground arith

module _ (k : Kind) (t : ObjectOf k → Bool) where
  drop_none : (w : Objects) {p : ObjectOf k} → pick (drop_object w k t) k t ≡ ok p → ⊥
  drop_none [] h = unfold drop_object pick in err-ne-ok h
  drop_none (o ∷ os) {p} h = elim (Option-cases (as_kind o.0 k o.1)) [
    | inl e ↦ drop_none os (
        sym (pick_other k t (drop_object os k t) o e)
        ∙ subst (λ v. pick v k t ≡ ok p) (drop_other k t os o e) h)
    | inr (q, e) ↦ elim (Bool-cases (t q)) [
      | inl g ↦ drop_none os (subst (λ v. pick v k t ≡ ok p) (drop_hit k t os o e g) h)
      | inr g ↦ drop_none os (
          sym (pick_past k t (drop_object os k t) o e g)
          ∙ subst (λ v. pick v k t ≡ ok p) (drop_miss k t os o e g) h)
    ]
  ]

  module _ (j : Kind) (s : ObjectOf j → Bool) where
    Read : Objects → Type 0
    Read w = (q : ObjectOf j) × (pick w j s ≡ ok q)

    cons-Read :
        (o : Object) (os rest : Objects) → (Read rest → Read os) → Read (o ∷ rest) → Read (o ∷ os)
    unfolding Read
    cons-Read o os rest ih (p, h) = elim (Option-cases (as_kind o.0 j o.1)) [
      | inl e ↦
          let (q, g) = ih (p, sym (pick_other j s rest o e) ∙ h) in (q, pick_other j s os o e ∙ g)
      | inr (q, e) ↦ elim (Bool-cases (s q)) [
        | inl g ↦ (q, pick_here j s os o e g)
        | inr g ↦
            let (r, x) = ih (p, sym (pick_past j s rest o e g) ∙ h) in
            (r, pick_past j s os o e g ∙ x)
      ]
    ]

    later-Read : (o : Object) (os : Objects) → Read os → Read (o ∷ os)
    unfolding Read
    later-Read o os (p, h) = elim (Option-cases (as_kind o.0 j o.1)) [
      | inl e ↦ (p, pick_other j s os o e ∙ h)
      | inr (q, e) ↦ elim (Bool-cases (s q)) [
        | inl g ↦ (q, pick_here j s os o e g)
        | inr g ↦ (p, pick_past j s os o e g ∙ h)
      ]
    ]

    drop-Read : (w : Objects) → Read (drop_object w k t) → Read w
    drop-Read [] h = unfold drop_object in h
    drop-Read (o ∷ os) h = elim (Option-cases (as_kind o.0 k o.1)) [
      | inl e ↦
          cons-Read o os (drop_object os k t) (drop-Read os) (subst Read (drop_other k t os o e) h)
      | inr (q, e) ↦ elim (Bool-cases (t q)) [
        | inl g ↦ later-Read o os (drop-Read os (subst Read (drop_hit k t os o e g) h))
        | inr g ↦
            cons-Read o os (drop_object os k t) (drop-Read os)
              (subst Read (drop_miss k t os o e g) h)
      ]
    ]

    pub read_dropped :
        (w : Objects) {p : ObjectOf j}
        → pick (drop_object w k t) j s ≡ ok p
        → (q : ObjectOf j) × (pick w j s ≡ ok q)
    unfolding Read
    read_dropped w {p} h = drop-Read w (p, h)

pub objects-DeleteIsLawful : DeleteIsLawful objects
objects-DeleteIsLawful = record {
  get-delete = λ w k n {o} wide got _ found.
      let named = at-name k [] n o (pick-passes k (at_key k [] n) w got) in
      drop_none k (at_key k [] n) w (
        subst (λ t. pick (drop_object w k t) k (at_key k [] n) ≡ ok found.0)
          (any_place k (meta_of k o).namespace [] (meta_of k o).name wide ∙ λ i.
            at_key k [] (named i))
          found.1);
  delete_only = λ w k o j n _ found.
      read_dropped k (at_key k (meta_of k o).namespace (meta_of k o).name) j (at_key j [] n) w
        found.1;
}
