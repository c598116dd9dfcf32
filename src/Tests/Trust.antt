-- ===== src/Tests/Trust.antt =====
-- The secret of the admission controller and its webhook in a cluster in memory.
use integrity_shield.Base.{Str, bytes, ◌==◌, any, [], ◌∷◌, ◌++◌, true, ok, none, some, ◌≡◌, refl}
use integrity_shield.Operator.Objects.{secret, Secret, ValidatingWebhook}
use integrity_shield.Operator.Certificates.{
  returned, ca_template, service_host, tls_template, issue_tls, issue, generate_cert,
}
use integrity_shield.Operator.Certificates.Issued.{IsCa, IsServiceCert}
use integrity_shield.Operator.Handlers.{value_at, add_cert_values}
use integrity_shield.Operator.Resources.Config.{
  tls_cert_key, tls_private_key_key, build_api_tls_secret_for_ishield,
}
use integrity_shield.Operator.Resources.Webhook.{build_validating_webhook_configuration_for_ishield}
use integrity_shield.Operator.Event.{with_ca_bundle}
use integrity_shield.Operator.Event.Trust.{webhook_trusts_server}
use integrity_shield.Tests.Instance.{shield}
use integrity_shield.Tests.Objects.{Objects, at_key, get_object, pick_first}
use integrity_shield.Tests.Lawful.{objects, crypto}

abbrev ac_secret : Secret
ac_secret =
    add_cert_values objects [] shield (build_api_tls_secret_for_ishield shield) (bytes "webhook")

abbrev stored : Objects
stored = (secret, ac_secret) ∷ []

-- The keys are the numbers 0 and 1, of which 0 signs.
abbrev pems : Str × Str × Str
pems = (
  bytes "CERTIFICATE" ++ (bytes "webhook_ca" ++ (0 ∷ [])),
  bytes "RSA PRIVATE KEY" ++ (1 ∷ []),
  bytes "CERTIFICATE" ++ (bytes "webhook.ns.svc" ++ (0 ∷ [])),
)

generates : generate_cert crypto 0 (λ n. n) (bytes "webhook") (bytes "ns") ≡ (pems, none)
unfolding generate_cert returned issue issue_tls ca_template tls_template service_host bytes
generates = refl

keyed : at_key secret (bytes "ns") (bytes "webhook-tls") ac_secret ≡ true
unfolding add_cert_values build_api_tls_secret_for_ishield bytes ◌==◌ any
keyed = refl

found : get_object stored secret (bytes "ns") (bytes "webhook-tls") ≡ ok ac_secret
found = pick_first secret (at_key secret (bytes "ns") (bytes "webhook-tls")) [] ac_secret keyed

webhook_trusts_server_example :
    (h : ValidatingWebhook) × (signer : Str) × (key : Str) × (cert : Str) × ((with_ca_bundle objects
        stored shield
        (build_validating_webhook_configuration_for_ishield shield)).webhooks
      ≡ h ∷ [])
    × (value_at tls_private_key_key ac_secret.data_of ≡ some key)
    × (value_at tls_cert_key ac_secret.data_of ≡ some cert)
    × IsCa crypto 0 h.service.name h.service.namespace signer h.ca_bundle
    × IsServiceCert crypto 0 h.service.name h.service.namespace signer key cert
webhook_trusts_server_example =
    webhook_trusts_server objects shield [] stored ac_secret generates found refl
