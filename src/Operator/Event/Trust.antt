-- ===== src/Operator/Event/Trust.antt =====
-- The certificate of the admission controller and the CA that its webhook is given
-- (integrity-shield-operator/cert/cert.go and controllers/integrityshield.go).
use integrity_shield.Base.{
  Str, bytes, ◌==◌, any, List, [], ◌∷◌, none, some, ok, ◌≡◌, refl, ap, ◌∙◌, arith,
}
use integrity_shield.Operator.Types.{IntegrityShield}
use integrity_shield.Operator.Objects.{secret, Secret, ValidatingWebhook}
use integrity_shield.Operator.Client.{Client}
use integrity_shield.Operator.Certificates.{generate_cert}
use integrity_shield.Operator.Certificates.Issued.{IsCa, IsServiceCert, generate_cert-Issued}
use integrity_shield.Operator.Handlers.{value_at, with_first_bundle, add_cert_values, ac_tls_secret}
use integrity_shield.Operator.Resources.Config.{
  ca_key, tls_cert_key, tls_private_key_key, build_api_tls_secret_for_ishield,
}
use integrity_shield.Operator.Resources.Webhook.{build_validating_webhook_configuration_for_ishield}
use integrity_shield.Operator.Event.{with_ca_bundle}

module _ {Cluster : Type 0} (C : Client Cluster) (instance : IntegrityShield) (w : Cluster) where
  -- The secret of the admission controller, with what is generated in `w`.
  abbrev filled : Secret
  filled =
      add_cert_values C w instance (build_api_tls_secret_for_ishield instance)
        instance.spec.webhook_service_name

  abbrev certs : Str × Str × Str → List (Str × Str)
  certs pems = (ca_key, pems.0) ∷ (tls_cert_key, pems.2) ∷ (tls_private_key_key, pems.1) ∷ []

  data_of-filled :
      {pems : Str × Str × Str}
      → generate_cert C.crypto
          (C.now w)
          (C.random w)
          instance.spec.webhook_service_name
          instance.namespace
        ≡ (pems, none)
      → filled.data_of ≡ certs pems
  unfolding add_cert_values build_api_tls_secret_for_ishield any bytes ◌==◌
  data_of-filled p = ap (λ g. certs g.0) p

  given_ca :
      (pems : Str × Str × Str)
      → (value_at ca_key (certs pems) ≡ some pems.0)
        × (value_at tls_cert_key (certs pems) ≡ some pems.2)
        × (value_at tls_private_key_key (certs pems) ≡ some pems.1)
  unfolding bytes ◌==◌
  given_ca pems = (refl, refl, refl)

  module _ (v : Cluster) (s : Secret) where
    bundled :
        {ca : Str}
        → C.get v secret instance.namespace instance.spec.webhook_server_tls_secret_name ≡ ok s
        → value_at ca_key s.data_of ≡ some ca
        → (with_ca_bundle C v instance
            (build_validating_webhook_configuration_for_ishield instance)).webhooks
          ≡ with_first_bundle ca
              (build_validating_webhook_configuration_for_ishield instance).webhooks
    unfolding with_ca_bundle
    bundled p q = ground arith

    -- Where the certificates are generated without an error, and the cluster has what
    -- `createOrUpdateACTlsSecret` creates with them in the secret of the admission controller when
    -- the webhook is created, the webhook gets the CA
    -- that signs the certificate of the secret; this certificate is for the host of the service
    -- that the webhook calls, and the secret has its private key.
    pub webhook_trusts_server :
        {pems : Str × Str × Str}
        → generate_cert C.crypto
            (C.now w)
            (C.random w)
            instance.spec.webhook_service_name
            instance.namespace
          ≡ (pems, none)
        → C.get v secret instance.namespace instance.spec.webhook_server_tls_secret_name ≡ ok s
        → s.data_of ≡ (ac_tls_secret C w instance).data_of
        → (h : ValidatingWebhook) × (signer : Str) × (key : Str) × (cert : Str) × ((with_ca_bundle C
              v instance
              (build_validating_webhook_configuration_for_ishield instance)).webhooks
            ≡ h ∷ [])
          × (value_at tls_private_key_key s.data_of ≡ some key)
          × (value_at tls_cert_key s.data_of ≡ some cert)
          × IsCa C.crypto (C.now w) h.service.name h.service.namespace signer h.ca_bundle
          × IsServiceCert C.crypto (C.now w) h.service.name h.service.namespace signer key cert
    unfolding build_validating_webhook_configuration_for_ishield
    webhook_trusts_server {pems} g p e =
        let contents = e ∙ data_of-filled g in
        let (a, b, c) = given_ca pems in
        let (signer, ca, service) =
          generate_cert-Issued C.crypto (C.now w) instance.spec.webhook_service_name
            instance.namespace (C.random w) g in
        (
          _,
          signer,
          pems.1,
          pems.2,
          bundled p (ap (value_at ca_key) contents ∙ a),
          ap (value_at tls_private_key_key) contents ∙ c,
          ap (value_at tls_cert_key) contents ∙ b,
          ca,
          service,
        )
