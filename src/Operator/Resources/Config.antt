-- ===== src/Operator/Resources/Config.antt =====
-- ConfigMaps and secrets (integrity-shield-operator/resources/config.go and secret.go).
use integrity_shield.Base.{Str, bytes, List, [], ◌∷◌}
use integrity_shield.Operator.Objects.{ConfigMap, Secret, object_meta}
use integrity_shield.Operator.Types.{IntegrityShield}

unfoldable pub build_req_config_for_ishield : IntegrityShield → ConfigMap
build_req_config_for_ishield cr = record {
  meta = object_meta cr.spec.request_handler_config_name cr.namespace;
  data_of = (cr.spec.request_handler_config_key, cr.spec.request_handler_config) ∷ [];
}

unfoldable pub build_ac_config_for_ishield : IntegrityShield → ConfigMap
build_ac_config_for_ishield cr = record {
  meta = object_meta cr.spec.admission_controller_config_name cr.namespace;
  data_of = (cr.spec.admission_controller_config_key, cr.spec.admission_controller_config) ∷ [];
}

unfoldable pub build_observer_config_for_ishield : IntegrityShield → ConfigMap
build_observer_config_for_ishield cr = record {
  meta = object_meta cr.spec.observer.observer_config_name cr.namespace;
  data_of = (cr.spec.observer.observer_config_key, cr.spec.observer.observer_config) ∷ [];
}

-- `corev1.TLSCertKey`, `corev1.TLSPrivateKeyKey` and `corev1.SecretTypeTLS`
abbrev pub tls_cert_key : Str
tls_cert_key = bytes "tls.crt"

abbrev pub tls_private_key_key : Str
tls_private_key_key = bytes "tls.key"

abbrev pub ca_key : Str
ca_key = bytes "ca.crt"

abbrev pub secret_type_tls : Str
secret_type_tls = bytes "kubernetes.io/tls"

abbrev pub empty_certs : List (Str × Str)
empty_certs = (ca_key, []) ∷ (tls_cert_key, []) ∷ (tls_private_key_key, []) ∷ []

unfoldable pub build_tls_secret_for_ishield : IntegrityShield → Secret
build_tls_secret_for_ishield cr = record {
  meta = object_meta cr.spec.server_tls_secret_name cr.namespace;
  data_of = empty_certs;
  type_of = secret_type_tls;
}

unfoldable pub build_api_tls_secret_for_ishield : IntegrityShield → Secret
build_api_tls_secret_for_ishield cr = record {
  meta = object_meta cr.spec.webhook_server_tls_secret_name cr.namespace;
  data_of = empty_certs;
  type_of = secret_type_tls;
}
