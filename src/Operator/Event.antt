-- ===== src/Operator/Event.antt =====
-- The handler of the webhook's configuration, and the event that it records
-- (integrity-shield-operator/controllers/integrityshield.go).
pub mod Trust
use integrity_shield.Base.{
  Str, bytes, ◌∷◌, [], ◌++◌, ◌+◌, ◌%◌, ◌^◌, if◌then◌else◌, Option, none, some, ok, err, Error,
  is_not_found, is_already_exists,
}
use integrity_shield.Operator.Objects.{
  validating_webhook_configuration, secret, event, ValidatingWebhookConfiguration, Event,
}
use integrity_shield.Operator.Types.{IntegrityShield}
use integrity_shield.Operator.Deletion.{no_requeue, requeue_soon}
use integrity_shield.Operator.Creation.{requeue_now}
use integrity_shield.Operator.Client.{Client}
use integrity_shield.Operator.Handlers.{Handler, value_at, with_first_bundle}
use integrity_shield.Operator.Resources.Config.{ca_key}
use integrity_shield.Operator.Resources.Webhook.{build_validating_webhook_configuration_for_ishield}

abbrev pub evt_source_name : Str
evt_source_name = bytes "IntegrityShield"

abbrev pub event_reason : Str
event_reason = bytes "webhook-reconciled"

unfoldable pub event_message : Str → Str
event_message webhook_name =
    bytes "[IntegrityShieldEvent] IntegrityShield reconciled MutatingWebhookConfiguration \""
    ++ (webhook_name ++ bytes "\"")

module _ {Cluster : Type 0} (C : Client Cluster) where
  unfoldable pub new_event : Cluster → IntegrityShield → Str → Str → Event
  unfolding event_message
  new_event w instance evt_name webhook_name = record {
    meta = record {
      name = evt_name;
      namespace = instance.namespace;
      labels = none;
      annotations =
          some ((bytes "integrityshield.io/eventType", bytes "integrityshield.io/eventType") ∷ []);
      owner_references = [];
    };
    involved_object = record {
      namespace = instance.namespace;
      api_version = instance.api_version;
      kind = instance.kind;
      name = instance.name;
    };
    type_of = evt_source_name;
    component = evt_source_name;
    reporting_controller = evt_source_name;
    reporting_instance = evt_name;
    action = evt_name;
    first_timestamp = C.now w;
    last_timestamp = C.now w;
    event_time = C.now w;
    message = event_message webhook_name;
    reason = event_reason;
    count = 1;
  }

  -- The count is an `int32`.
  unfoldable pub updated_event : Cluster → Str → Str → Event → Event
  unfolding event_message
  updated_event w evt_name webhook_name found = record found {
    count = (found.count + 1) % 2 ^ 32;
    event_time = C.now w;
    last_timestamp = C.now w;
    message = event_message webhook_name;
    reason = event_reason;
    reporting_controller = evt_source_name;
    reporting_instance = evt_name;
  }

  unfoldable pub create_or_update_webhook_event :
      IntegrityShield → Str → Str → Cluster → Option Error × Cluster
  unfolding new_event updated_event
  create_or_update_webhook_event instance evt_name webhook_name w =
      elim (C.get w event instance.namespace evt_name) [
        | ok found ↦ C.update w event (updated_event w evt_name webhook_name found)
        | err e ↦
            if is_not_found e
            then (let (e?, w') = C.create w event (new_event w instance evt_name webhook_name) in
                elim e? [
                  | none ↦ (none, w')
                  | some f ↦ if is_already_exists f then (none, w') else (some f, w')
                ])
            else (some e, w)
      ]

  -- The bundle of the secret, where the secret is read and has one.
  unfoldable pub with_ca_bundle :
      Cluster → IntegrityShield → ValidatingWebhookConfiguration → ValidatingWebhookConfiguration
  with_ca_bundle w instance expected =
      elim (C.get w secret instance.namespace instance.spec.webhook_server_tls_secret_name) [
        | err _ ↦ expected
        | ok s ↦ elim (value_at ca_key s.data_of) [
          | none ↦ expected
          | some cabundle ↦ record expected {
            webhooks = with_first_bundle cabundle expected.webhooks;
          }
        ]
      ]

  abbrev pub evt_name : Str
  evt_name = bytes "ishield-webhook-reconciled"

  -- What becomes of the error of the event is not looked at.
  unfoldable pub create_webhook : IntegrityShield → ValidatingWebhookConfiguration → Handler C
  unfolding with_ca_bundle create_or_update_webhook_event
  create_webhook instance expected w =
      let (e?, w') =
        C.create w validating_webhook_configuration (with_ca_bundle w instance expected) in
      elim e? [
        | none ↦
            let (_, w'') = create_or_update_webhook_event instance evt_name expected.meta.name w' in
            ((requeue_soon, none), w'')
        | some e ↦
            if is_already_exists e then ((requeue_now, none), w') else ((no_requeue, some e), w')
      ]

  unfoldable pub create_or_update_webhook : IntegrityShield → Handler C
  unfolding build_validating_webhook_configuration_for_ishield create_webhook
  create_or_update_webhook instance w =
      elim (C.set_controller_reference instance validating_webhook_configuration
        (build_validating_webhook_configuration_for_ishield instance)) [
          | err e ↦ ((no_requeue, some e), w)
          | ok expected ↦ elim (C.get w validating_webhook_configuration [] expected.meta.name) [
            | ok found ↦ ((no_requeue, none), w)
            | err e ↦
                if is_not_found e
                then create_webhook instance expected w
                else ((no_requeue, some e), w)
          ]
        ]
