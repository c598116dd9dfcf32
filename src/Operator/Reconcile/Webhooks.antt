-- ===== src/Operator/Reconcile/Webhooks.antt =====
-- What the handlers of the webhook do to the cluster
-- (integrity-shield-operator/controllers/integrityshield.go).
use integrity_shield.Base.{
  Str, true, false, Bool-cases, Option-cases, Result-cases, is_not_found, is_already_exists, Option,
  Error, ok, err, ◌⊎◌, inl, inr, ◌≡◌, arith, [],
}
use integrity_shield.Operator.Objects.{
  event, secret, validating_webhook_configuration, ValidatingWebhookConfiguration,
}
use integrity_shield.Operator.Types.{IntegrityShield}
use integrity_shield.Operator.Client.{Client, ObjectOf, cluster_scoped}
use integrity_shield.Operator.Deletion.{delete_found, delete_webhook}
use integrity_shield.Operator.Handlers.{built_names, value_at}
use integrity_shield.Operator.Event.{
  with_ca_bundle, evt_name, create_webhook, create_or_update_webhook,
  create_or_update_webhook_event, new_event, updated_event,
}
use integrity_shield.Operator.Resources.Config.{ca_key}
use integrity_shield.Operator.Resources.Webhook.{build_validating_webhook_configuration_for_ishield}

module _ {Cluster : Type 0} (C : Client Cluster) (instance : IntegrityShield) where
  module _ (evt name : Str) (v : Cluster) where
    abbrev pub noted : Cluster
    noted = (create_or_update_webhook_event C instance evt name v).1

    event_updated :
        {o : ObjectOf event}
        → C.get v event instance.namespace evt ≡ ok o
        → noted ≡ (C.update v event (updated_event C v evt name o)).1
    unfolding create_or_update_webhook_event
    event_updated p = ground arith

    event_unread :
        {e : Error}
        → C.get v event instance.namespace evt ≡ err e
        → is_not_found e ≡ false
        → noted ≡ v
    unfolding create_or_update_webhook_event
    event_unread p q = ground arith

    event_created :
        {e : Error}
        → C.get v event instance.namespace evt ≡ err e
        → is_not_found e ≡ true
        → noted ≡ (C.create v event (new_event C v instance evt name)).1
    unfolding create_or_update_webhook_event
    event_created p q =
        elim (Option-cases ((C.create v event (new_event C v instance evt name)).0)) [
          | inl r ↦ ground arith
          | inr (f, r) ↦ elim (Bool-cases (is_already_exists f)) [
            | inl x ↦ ground arith
            | inr x ↦ ground arith
          ]
        ]

    pub event_cases :
        (noted ≡ v)
        ⊎ (((o : ObjectOf event) × (noted ≡ (C.create v event o).1))
            ⊎ ((o : ObjectOf event) × (noted ≡ (C.update v event o).1)))
    event_cases = elim (Result-cases (C.get v event instance.namespace evt)) [
      | inl (o, p) ↦ inr (inr (_, event_updated p))
      | inr (e, p) ↦ elim (Bool-cases (is_not_found e)) [
        | inl q ↦ inr (inl (_, event_created p q))
        | inr q ↦ inl (event_unread p q)
      ]
    ]

  module _ (w : Cluster) (expected : ValidatingWebhookConfiguration) where
    abbrev pub sent : ValidatingWebhookConfiguration
    sent = with_ca_bundle C w instance expected

    abbrev pub made : Option Error × Cluster
    made = C.create w validating_webhook_configuration sent

    pub sent-meta : sent.meta ≡ expected.meta
    unfolding with_ca_bundle
    sent-meta =
        elim (Result-cases
          (C.get w secret instance.namespace instance.spec.webhook_server_tls_secret_name)) [
            | inr (e, p) ↦ ground arith
            | inl (s, p) ↦ elim (Option-cases (value_at ca_key s.data_of)) [
              | inl q ↦ ground arith
              | inr (b, q) ↦ ground arith
            ]
          ]

    pub create_webhook_cases :
        ((create_webhook C instance expected w).1 ≡ made.1)
        ⊎ ((create_webhook C instance expected w).1
            ≡ (create_or_update_webhook_event C instance (evt_name C) expected.meta.name made.1).1)
    unfolding create_webhook
    create_webhook_cases = elim (Option-cases (made.0)) [
      | inl p ↦ inr (ground arith)
      | inr (e, p) ↦ elim (Bool-cases (is_already_exists e)) [
        | inl q ↦ inl (ground arith)
        | inr q ↦ inl (ground arith)
      ]
    ]

  -- The handler of the webhook leaves the cluster, or creates the webhook that it builds.
  pub webhook_cases :
      (w : Cluster)
      → ((create_or_update_webhook C instance w).1 ≡ w)
        ⊎ ((expected : ValidatingWebhookConfiguration) × (C.set_controller_reference instance
                validating_webhook_configuration
                (build_validating_webhook_configuration_for_ishield instance)
              ≡ ok expected)
            × ((create_or_update_webhook C instance w).1
                ≡ (create_webhook C instance expected w).1))
  unfolding create_or_update_webhook
  webhook_cases w =
      elim (Result-cases (
        C.set_controller_reference instance validating_webhook_configuration
          (build_validating_webhook_configuration_for_ishield instance))) [
            | inr (e, o) ↦ inl (ground arith)
            | inl (expected, o) ↦
                elim (Result-cases
                  (C.get w validating_webhook_configuration [] expected.meta.name)) [
                    | inl (found, p) ↦ inl (ground arith)
                    | inr (e, p) ↦ elim (Bool-cases (is_not_found e)) [
                      | inl q ↦ inr (expected, o, ground arith)
                      | inr q ↦ inl (ground arith)
                    ]
                  ]
          ]

  pub deleted_cases :
      (w : Cluster)
      → ((delete_webhook (cluster_scoped C) built_names instance w).1 ≡ w)
        ⊎ ((o : ValidatingWebhookConfiguration) × ((delete_webhook
                (cluster_scoped C)
                built_names
                instance
                w).1
              ≡ (C.delete w validating_webhook_configuration o).1))
  unfolding delete_webhook delete_found
  deleted_cases w =
      elim (Result-cases (
        C.get w validating_webhook_configuration []
          (built_names.validating_webhook_configuration_for_ishield instance))) [
            | inl (o, p) ↦ elim (Option-cases ((C.delete w validating_webhook_configuration o).0)) [
              | inl q ↦ inr (o, ground arith)
              | inr (e, q) ↦ inr (o, ground arith)
            ]
            | inr (e, p) ↦ elim (Bool-cases (is_not_found e)) [
              | inl q ↦ inl (ground arith)
              | inr q ↦ inl (ground arith)
            ]
          ]
