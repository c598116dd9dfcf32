-- ===== src/Operator/Reconcile/Kinds.antt =====
-- The handlers by what they do to an object that is there
-- (integrity-shield-operator/controllers/integrityshield.go).
use integrity_shield.Base.{
  inl, Str, true, false, Option, none, some, ok, ◌≡◌, refl, sym, ap, subst, ◌∙◌,
}
use integrity_shield.Operator.Objects.{Kind}
use integrity_shield.Operator.Types.{IntegrityShield}
use integrity_shield.Operator.Creation.{create_or, left_alone}
use integrity_shield.Operator.Client.{Client, ObjectOf, meta_of, at}
use integrity_shield.Operator.Reconcile.Laws.{ClientIsLawful}
use integrity_shield.Operator.Reconcile.Entries.{
  Change, unchanged, created, updated, Entry, found_good, found_good_of, of_found_good,
}
use integrity_shield.Operator.Reconcile.Entry.{
  PresentIsLawful, entry_calm, entry_works, entry_changes, entry_adds,
}

-- The name and the namespace of what a handler builds, and that it looks for it there.
pub record Keyed {Cluster : Type 0} (C : Client Cluster) (k : Kind)
    (namespace_of : ObjectOf k → Str) (built : Cluster → ObjectOf k) (ns n : Str) : Type 0 where
  pub named : (w : Cluster) → (meta_of k (built w)).name ≡ n
  pub placed : (w : Cluster) → (meta_of k (built w)).namespace ≡ ns
  pub sought :
      (v : Cluster) (o : ObjectOf k)
      → (meta_of k o).namespace ≡ ns
      → C.get v k (namespace_of o) n ≡ C.get v k ns n

module _ {Cluster : Type 0} (C : Client Cluster) (law : ClientIsLawful C)
    (instance : IntegrityShield) where
  pub true-ne-false : false ≡ true → ⊥
  true-ne-false p = cc

  pub none-ne-some : {A : Type 0} {n : A} → none ≡ some n → ⊥
  none-ne-some p = cc

  module _ (k : Kind) (namespace_of : ObjectOf k → Str) (built : Cluster → ObjectOf k) (ns n : Str)
      (key : Keyed C k namespace_of built ns n) where
    module _ (w : Cluster) {expected : ObjectOf k}
        (o : C.set_controller_reference instance k (built w) ≡ ok expected) where
      pub named_so : (meta_of k expected).name ≡ n
      named_so = (law.reference_keeps instance k (built w) o).0 ∙ key.named w

      placed_so : (meta_of k expected).namespace ≡ ns
      placed_so = (law.reference_keeps instance k (built w) o).1 ∙ key.placed w

      pub looks_there :
          (v : Cluster)
          → C.get v k (namespace_of expected) (meta_of k expected).name ≡ C.get v k ns n
      looks_there v =
          ap (λ m. C.get v k (namespace_of expected) m) named_so ∙ key.sought v expected placed_so

      pub lands_there :
          (v : Cluster)
          → C.get v k (meta_of k expected).namespace (meta_of k expected).name ≡ C.get v k ns n
      lands_there v = λ i. C.get v k (placed_so i) (named_so i)

    -- A change leaves an object that is there, though it may update it.
    pub stays_found :
        (d : Option Str) (w w' : Cluster)
        → Change C d w w'
        → found_good C k ns n (λ _. true) w ≡ true
        → found_good C k ns n (λ _. true) w' ≡ true
    stays_found d w w' (unchanged e) h =
        subst (λ v. found_good C k ns n (λ _. true) v ≡ true) (sym e) h
    stays_found d w w' (created j o e) h =
        let (q, got, _) = of_found_good C k ns n (λ _. true) w h in
        subst (λ v. found_good C k ns n (λ _. true) v ≡ true) (sym e)
          (found_good_of C k ns n (λ _. true) _ (law.create_keeps w j o k ns n got) refl)
    stays_found d w w' (updated j o p e _) h =
        let (q, got, _) = of_found_good C k ns n (λ _. true) w h in
        let (_, still) = law.update_keeps w j o k ns n p got in
        subst (λ v. found_good C k ns n (λ _. true) v ≡ true) (sym e)
          (found_good_of C k ns n (λ _. true) _ still refl)

    pub left_alone-IsLawful :
        PresentIsLawful C k (left_alone (at C k)) namespace_of instance built ns n (λ _. true) none
    unfolding left_alone
    left_alone-IsLawful = record {
      looks = looks_there;
      lands = lands_there;
      titled = named_so;
      present_adds = λ _ _ _ _ _ found. inl found;
      fits = λ _ _ _ _. refl;
      present_calm = λ _ _ _ h. true-ne-false h;
      present_works = λ w o f _. found_good_of C k ns n (λ _. true) w f refl;
      present_changes = λ w o f _. unchanged refl;
    }

    abbrev pub plain_entry : Entry C
    plain_entry = record {
      step = λ w. create_or (at C k) (left_alone (at C k)) namespace_of instance (built w) w;
      ready = found_good C k ns n (λ _. true);
      deploys = none;
      key = (k, ns, n);
      there = λ w h. let (p, got, _) = of_found_good C k ns n (λ _. true) w h in (p, got);
      calm =
          entry_calm C law k (left_alone (at C k)) namespace_of instance built ns n (λ _. true) none
            left_alone-IsLawful;
      works =
          entry_works C law k (left_alone (at C k)) namespace_of instance built ns n (λ _. true)
            none left_alone-IsLawful;
      changes =
          entry_changes C law k (left_alone (at C k)) namespace_of instance built ns n (λ _. true)
            none left_alone-IsLawful;
      adds =
          entry_adds C law k (left_alone (at C k)) namespace_of instance built ns n (λ _. true) none
            left_alone-IsLawful;
      stays_there = stays_found;
      stays = λ d w w' _. stays_found d w w';
    }
