-- ===== src/Operator/Reconcile/Additions.antt =====
-- Which objects without a namespace a pass lets be found
-- (integrity-shield-operator/controllers/integrityshield_controller.go).
use integrity_shield.Base.{
  Str, true, List, [], ◌∷◌, map, Memᴰ, ◌⊎◌, inl, inr, ◌≡◌, refl, sym, subst,
}
use mathlib.Core.List.Memᴰ.{of_map}
use mathlib.Core.List.Memᴰ.{map as mem_map}
use integrity_shield.Operator.Objects.{Kind}
use integrity_shield.Operator.Types.{IntegrityShield}
use integrity_shield.Operator.Client.{Client}
use integrity_shield.Operator.Deletion.Cleanup.{Child, children}
use integrity_shield.Operator.Handlers.{built_names}
use integrity_shield.Operator.Reconcile.{run_handlers, installation}
use integrity_shield.Operator.Reconcile.Laws.{is_cluster_wide, Found, ClientIsLawful}
use integrity_shield.Operator.Reconcile.Steps.{Step, run_ends}
use integrity_shield.Operator.Reconcile.Rounds.{Task}
use integrity_shield.Operator.Reconcile.Entries.{Entry}
use integrity_shield.Operator.Reconcile.Separate.{task}
use integrity_shield.Operator.Reconcile.Keys.{installed}
use integrity_shield.Operator.Reconcile.Listing.{key_of, entries, steps-installation, keys-entries}
use integrity_shield.Operator.Reconcile.Removal.{installed-children}

module _ {Cluster : Type 0} (C : Client Cluster) where
  -- What is found after a step and has no namespace was found before, or is in the list.
  abbrev pub Only : List Child → Step Cluster → Type 0
  Only cs s =
      (w : Cluster) (j : Kind) (n : Str)
      → is_cluster_wide j ≡ true
      → Found C (s w).1 j n
      → Found C w j n ⊎ Memᴰ (j, n) cs

  pub run-Only :
      (cs : List Child) (ss : List (Step Cluster))
      → ((s : Step Cluster) → Memᴰ s ss → Only cs s)
      → Only cs (run_handlers ss)
  unfolding run_handlers
  run-Only cs [] all w j n wide found = inl found
  run-Only cs (s ∷ ss) all w j n wide found = elim (run_ends s ss w) [
    | inl p ↦ all s (Memᴰ.head refl) w j n wide (subst (λ v. Found C v j n) p found)
    | inr p ↦
        elim (run-Only cs ss (λ t m. all t (Memᴰ.tail m)) (s w).1 j n wide
          (subst (λ v. Found C v j n) p found)) [
            | inr listed ↦ inr listed
            | inl before ↦ all s (Memᴰ.head refl) w j n wide before
          ]
  ]

  module _ (law : ClientIsLawful C) (instance : IntegrityShield) where
    abbrev own_children : List Child
    own_children = children built_names instance

    entry-Only : (e : Entry C) → Memᴰ e (entries C law instance) → Only own_children e.step
    entry-Only e m w j n wide found = elim (e.adds w j n wide found) [
      | inl before ↦ inl before
      | inr (p, q) ↦ inr (
          subst (λ (c : Child). Memᴰ c own_children) (λ i. (sym p i, sym q i))
            (installed-children instance listed (subst (λ k. is_cluster_wide k ≡ true) p wide)))
    ]
      where
        listed : Memᴰ e.key (installed instance)
        listed =
            subst (λ keys. Memᴰ e.key keys)
              (keys-entries C law instance instance.spec.observer.enabled
                instance.spec.use_gatekeeper)
              (mem_map (key_of C) m)

    pub installation-Only :
        (s : Step Cluster) → Memᴰ s (installation C instance) → Only own_children s
    installation-Only s m =
        let (t, mt, p) =
          of_map (λ (t : Task Cluster). t.step) (map (task C) (entries C law instance))
            (subst (λ ss. Memᴰ s ss) (sym (steps-installation C law instance)) m) in
        let (e, me, q) = of_map (task C) (entries C law instance) mt in
        subst (λ (s : Step Cluster). Only own_children s) p
          (subst (λ (t : Task Cluster). Only own_children t.step) q (entry-Only e me))
