-- ===== src/Operator/Reconcile/Last.antt =====
-- Which objects without a namespace the last handler lets be found
-- (integrity-shield-operator/controllers/integrityshield.go).
use integrity_shield.Base.{
  Str, true, false, Bool, Bool-cases, Memᴰ, ok, ◌⊎◌, inl, inr, ◌≡◌, refl, sym, ap, subst, ◌∙◌,
  arith,
}
use integrity_shield.Operator.Objects.{
  Kind, event, constraint_template, validating_webhook_configuration, ObjectMeta,
  ValidatingWebhookConfiguration,
}
use integrity_shield.Operator.Types.{IntegrityShield}
use integrity_shield.Operator.Client.{Client, cluster_scoped}
use integrity_shield.Operator.Creation.{create_or_update_constraint_template}
use integrity_shield.Operator.Deletion.{delete_webhook}
use integrity_shield.Operator.Deletion.Cleanup.{children}
use integrity_shield.Operator.Handlers.{
  built_names, create_or_update_manifest_integrity_constraint, is_deployment_available,
  is_gatekeeper_available,
}
use integrity_shield.Operator.Event.{
  with_ca_bundle, evt_name, create_webhook, create_or_update_webhook,
  create_or_update_webhook_event,
}
use integrity_shield.Operator.Resources.Crd.{build_constraint_template_for_ishield}
use integrity_shield.Operator.Resources.Webhook.{build_validating_webhook_configuration_for_ishield}
use integrity_shield.Operator.Reconcile.{last_handler}
use integrity_shield.Operator.Reconcile.Laws.{
  is_cluster_wide, Found, ClientIsLawful, DeleteIsLawful,
}
use integrity_shield.Operator.Reconcile.Entries.{Entry}
use integrity_shield.Operator.Reconcile.Installed.{here_entry}
use integrity_shield.Operator.Reconcile.Removal.{children_of}
use integrity_shield.Operator.Reconcile.Additions.{Only}
use integrity_shield.Operator.Reconcile.Webhooks.{
  event_cases, sent-meta, create_webhook_cases, webhook_cases, deleted_cases,
}

module _ {Cluster : Type 0} (C : Client Cluster) (law : ClientIsLawful C) (gone : DeleteIsLawful C)
    (instance : IntegrityShield) where
  abbrev webhook_name : Str
  webhook_name = built_names.validating_webhook_configuration_for_ishield instance

  no_event : {j : Kind} → is_cluster_wide j ≡ true → j ≡ event → ⊥
  no_event wide e = false-ne-true (subst (λ k. is_cluster_wide k ≡ true) e wide)
    where
      false-ne-true : false ≡ true → ⊥
      false-ne-true p = cc

  module _ (j : Kind) (n : Str) (wide : is_cluster_wide j ≡ true) where
    event_adds :
        (evt name : Str) (v : Cluster)
        → Found C (create_or_update_webhook_event C instance evt name v).1 j n
        → Found C v j n
    event_adds evt name v found = elim (event_cases C instance evt name v) [
      | inl p ↦ subst (λ u. Found C u j n) p found
      | inr (inl (o, p)) ↦
          elim (law.create_only v event o j n wide (subst (λ u. Found C u j n) p found)) [
            | inl before ↦ before
            | inr (e, _) ↦ absurd (no_event wide e)
          ]
      | inr (inr (o, p)) ↦
          elim (law.update_only v event o j n wide (subst (λ u. Found C u j n) p found)) [
            | inl before ↦ before
            | inr (e, _) ↦ absurd (no_event wide e)
          ]
    ]

    create_webhook_adds :
        (w : Cluster) (expected : ValidatingWebhookConfiguration)
        → C.set_controller_reference instance validating_webhook_configuration
            (build_validating_webhook_configuration_for_ishield instance)
          ≡ ok expected
        → Found C (create_webhook C instance expected w).1 j n
        → Found C w j n ⊎ ((j ≡ validating_webhook_configuration) × (n ≡ webhook_name))
    create_webhook_adds w expected o found = elim (create_webhook_cases C instance w expected) [
      | inl p ↦ new (subst (λ u. Found C u j n) p found)
      | inr p ↦
          new (event_adds (evt_name C) expected.meta.name _ (subst (λ u. Found C u j n) p found))
    ]
      where
        new :
            Found C
              (C.create w validating_webhook_configuration (with_ca_bundle C w instance expected)).1
              j
              n
            → Found C w j n ⊎ ((j ≡ validating_webhook_configuration) × (n ≡ webhook_name))
        new h =
            elim (law.create_only w validating_webhook_configuration
              (with_ca_bundle C w instance expected) j n wide h) [
                | inl before ↦ inl before
                | inr (e, p) ↦ inr (
                  e,
                  p
                      ∙ ap (λ (m : ObjectMeta). m.name) (sent-meta C instance w expected)
                      ∙ (law.reference_keeps instance validating_webhook_configuration _ o).0,
                )
              ]

  webhook_child :
      (o : Bool)
      → Memᴰ (validating_webhook_configuration, webhook_name) (children_of instance o false)
  webhook_child o = Memᴰ.tail (Memᴰ.tail (Memᴰ.head refl))

  template_child :
      (o : Bool)
      → Memᴰ
          (constraint_template, built_names.constraint_template_for_ishield instance)
          (children_of instance o true)
  template_child o = Memᴰ.tail (Memᴰ.tail (Memᴰ.head refl))

  child_if :
      {c : Kind × Str} {g : Bool}
      → instance.spec.use_gatekeeper ≡ g
      → Memᴰ c (children_of instance instance.spec.observer.enabled g)
      → Memᴰ c (children built_names instance)
  unfolding children
  child_if {c} p m =
      subst (λ g. Memᴰ c (children_of instance instance.spec.observer.enabled g)) (sym p) m

  abbrev template_entry : Entry C
  template_entry =
      here_entry C law instance constraint_template
        (λ _. build_constraint_template_for_ishield instance)
        (built_names.constraint_template_for_ishield instance) (λ _. refl)
        (λ _. unfold build_constraint_template_for_ishield in refl)

  gatekeeper-Only :
      instance.spec.use_gatekeeper ≡ true
      → Only C
          (children built_names instance)
          (create_or_update_manifest_integrity_constraint C instance)
  unfolding create_or_update_manifest_integrity_constraint create_or_update_constraint_template
  gatekeeper-Only g w j n wide found = elim (template_entry.adds w j n wide found) [
    | inl before ↦ inl before
    | inr (p, q) ↦ inr (
        subst (λ (c : Kind × Str). Memᴰ c (children built_names instance)) (λ i. (sym p i, sym q i))
          (child_if g (template_child _)))
  ]

  webhook-Only :
      instance.spec.use_gatekeeper ≡ false
      → Only C (children built_names instance) (create_or_update_webhook C instance)
  webhook-Only g w j n wide found = elim (webhook_cases C instance w) [
    | inl p ↦ inl (subst (λ u. Found C u j n) p found)
    | inr (expected, o, p) ↦
        elim (create_webhook_adds j n wide w expected o (subst (λ u. Found C u j n) p found)) [
          | inl before ↦ inl before
          | inr (p, q) ↦ inr (
              subst (λ (c : Kind × Str). Memᴰ c (children built_names instance))
                (λ i. (sym p i, sym q i)) (child_if g (webhook_child _)))
        ]
  ]

  deleted-Only :
      Only C
        (children built_names instance)
        (delete_webhook (cluster_scoped C) built_names instance)
  deleted-Only w j n wide found = elim (deleted_cases C instance w) [
    | inl p ↦ inl (subst (λ u. Found C u j n) p found)
    | inr (o, p) ↦ inl (
        gone.delete_only w validating_webhook_configuration o j n wide
          (subst (λ u. Found C u j n) p found))
  ]

  pub last-Only : Only C (children built_names instance) (last_handler C instance)
  unfolding last_handler
  last-Only w j n wide found = elim (Bool-cases (instance.spec.use_gatekeeper)) [
    | inl g ↦ elim (Bool-cases (is_gatekeeper_available C w)) [
      | inl a ↦ gatekeeper-Only g w j n wide (ground (arith, found))
      | inr a ↦ inl (ground (arith, found))
    ]
    | inr g ↦ elim (Bool-cases (is_deployment_available C instance w)) [
      | inl a ↦ webhook-Only g w j n wide (ground (arith, found))
      | inr a ↦ deleted-Only w j n wide (ground (arith, found))
    ]
  ]
