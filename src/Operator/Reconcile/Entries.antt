-- ===== src/Operator/Reconcile/Entries.antt =====
-- What a handler leaves for itself and for the others
-- (integrity-shield-operator/controllers/integrityshield.go).
use integrity_shield.Base.{
  Str, Bool, true, false, Option, none, some, Result-cases, Result, ok, err, Error, ◌⊎◌, ◌≡◌, sym,
  ap, ◌∙◌, inl, inr,
}
use integrity_shield.Operator.Objects.{Kind, deployment}
use integrity_shield.Operator.Client.{Client, ObjectOf, meta_of}
use integrity_shield.Operator.Reconcile.Laws.{is_cluster_wide, Found}
use integrity_shield.Operator.Reconcile.Steps.{Step}

module _ {Cluster : Type 0} (C : Client Cluster) where
  -- What a handler without an error did to the cluster; `d` names the deployment that it updates.
  pub data Change (d : Option Str) (w w' : Cluster) : Type 0 where
    unchanged : w' ≡ w → Change d w w'
    created : (k : Kind) (o : ObjectOf k) → w' ≡ (C.create w k o).1 → Change d w w'
    updated :
        (k : Kind) (o : ObjectOf k)
        → (C.update w k o).0 ≡ none
        → w' ≡ (C.update w k o).1
        → (k ≡ deployment → d ≡ some (meta_of k o).name)
        → Change d w w'

  -- Not both of the two name the same deployment.
  abbrev pub Differ : Option Str → Option Str → Type 0
  Differ d e = (n : Str) → d ≡ some n → e ≡ some n → ⊥

  abbrev passes : {A : Type 0} → (A → Bool) → Result A → Bool
  passes good (ok p) = good p
  passes good (err _) = false

  -- Whether an object is read that passes a test.
  abbrev pub found_good : (k : Kind) → Str → Str → (ObjectOf k → Bool) → Cluster → Bool
  found_good k ns n good w = passes good (C.get w k ns n)

  pub record Entry : Type 0 where
    pub step : Step Cluster
    pub ready : Cluster → Bool
    pub deploys : Option Str
    -- the kind, the namespace and the name of the object
    pub key : Kind × Str × Str
    pub there :
        (w : Cluster) → ready w ≡ true → (p : ObjectOf key.0) × (C.get w key.0 key.1 key.2 ≡ ok p)
    pub calm : (w : Cluster) → ready w ≡ true → (step w).0.0.requeue ≡ true → ⊥
    -- the object is as it should be, or there now and not before, and another pass is asked for
    pub works :
        (w : Cluster)
        → (step w).0.1 ≡ none
        → (ready (step w).1 ≡ true)
          ⊎ (((step w).0.0.requeue ≡ true)
              × (found_good key.0 key.1 key.2 (λ _. true) w ≡ false)
              × (found_good key.0 key.1 key.2 (λ _. true) (step w).1 ≡ true))
    pub changes : (w : Cluster) → (step w).0.1 ≡ none → Change deploys w (step w).1
    -- no other object without a namespace is found that was not found before
    pub adds :
        (w : Cluster) (j : Kind) (m : Str)
        → is_cluster_wide j ≡ true
        → Found C (step w).1 j m
        → Found C w j m ⊎ ((j ≡ key.0) × (m ≡ key.2))
    pub stays_there :
        (d : Option Str) (w w' : Cluster)
        → Change d w w'
        → found_good key.0 key.1 key.2 (λ _. true) w ≡ true
        → found_good key.0 key.1 key.2 (λ _. true) w' ≡ true
    pub stays :
        (d : Option Str) (w w' : Cluster)
        → Differ d deploys
        → Change d w w'
        → ready w ≡ true
        → ready w' ≡ true

  false-ne-true : false ≡ true → ⊥
  false-ne-true p = cc

  module _ (k : Kind) (ns n : Str) (good : ObjectOf k → Bool) (w : Cluster) where
    pub found_good_of :
        {p : ObjectOf k} → C.get w k ns n ≡ ok p → good p ≡ true → found_good k ns n good w ≡ true
    found_good_of q g = ap (passes good) q ∙ g

    pub not_found_good : {e : Error} → C.get w k ns n ≡ err e → found_good k ns n good w ≡ false
    not_found_good q = ap (passes good) q

    pub of_found_good :
        found_good k ns n good w ≡ true
        → (p : ObjectOf k) × (C.get w k ns n ≡ ok p) × (good p ≡ true)
    of_found_good h = elim (Result-cases (C.get w k ns n)) [
      | inl (p, q) ↦ (p, q, sym (ap (passes good) q) ∙ h)
      | inr (e, q) ↦ absurd (false-ne-true (sym (ap (passes good) q) ∙ h))
    ]
