-- ===== src/Operator/Certificates.antt =====
-- The certificates that the operator generates (integrity-shield-operator/cert/cert.go).
pub mod Issued
use integrity_shield.Base.{
  ℕ, Str, bytes, Bool, true, false, List, [], ◌∷◌, ◌++◌, Option, none, some, Error, Result, ok, err,
}

-- What an `x509.Certificate` is filled with; the usages are the names of Go's constants.
pub record Certificate : Type 0 where
  pub serial_number : ℕ
  pub common_name : Str
  pub is_ca : Bool
  pub ext_key_usage : List Str
  pub key_usage : List Str
  pub basic_constraints_valid : Bool
  pub not_before : ℕ
  pub not_after : ℕ
  pub dns_names : List Str

-- What `rand.Reader` gives from now on.
abbrev pub Entropy : Type 0
Entropy = ℕ → ℕ

-- crypto/rsa, crypto/x509, encoding/pem and the calendar. A key is its text; a call that reads
-- random bytes gives back those that are left.
pub record Crypto : Type 0 where
  pub generate_key : Entropy → ℕ → Result Str × Entropy
  pub public_key : Str → Str
  pub marshal_private_key : Str → Str
  -- the template, the parent, the public key of the subject and the private key of the parent
  pub create_certificate : Entropy → Certificate → Certificate → Str → Str → Result Str × Entropy
  pub pem_encode : Str → Str → Result Str
  -- the time, and the years, months and days to add
  pub add_date : ℕ → ℕ → ℕ → ℕ → ℕ

abbrev pub certificate_block : Str
certificate_block = bytes "CERTIFICATE"

abbrev pub private_key_block : Str
private_key_block = bytes "RSA PRIVATE KEY"

abbrev pub usages : List Str
usages = bytes "ExtKeyUsageClientAuth" ∷ bytes "ExtKeyUsageServerAuth" ∷ []

abbrev pub attempt : {A B : Type 0} → Result A → (A → Result B) → Result B
attempt (ok a) f = f a
attempt (err e) f = err e

-- With an error, the values are nil.
unfoldable pub returned : Result (Str × Str × Str) → (Str × Str × Str) × Option Error
returned (ok pems) = (pems, none)
returned (err e) = (([], [], []), some e)

module _ (X : Crypto) (now : ℕ) where
  unfoldable pub ca_template : Str → Certificate
  ca_template svc_name = record {
    serial_number = 2020;
    common_name = svc_name ++ bytes "_ca";
    is_ca = true;
    ext_key_usage = usages;
    key_usage = bytes "KeyUsageDigitalSignature" ∷ bytes "KeyUsageCertSign" ∷ [];
    basic_constraints_valid = true;
    not_before = now;
    not_after = X.add_date now 2 0 0;
    dns_names = [];
  }

  unfoldable pub service_host : Str → Str → Str
  service_host svc_name ns = svc_name ++ (bytes "." ++ (ns ++ bytes ".svc"))

  unfoldable pub tls_template : Str → Str → Certificate
  unfolding service_host
  tls_template svc_name ns = record {
    serial_number = 2020;
    common_name = service_host svc_name ns;
    is_ca = false;
    ext_key_usage = usages;
    key_usage = bytes "KeyUsageDigitalSignature" ∷ [];
    basic_constraints_valid = false;
    not_before = now;
    not_after = X.add_date now 2 0 0;
    dns_names = service_host svc_name ns ∷ [];
  }

  -- The key and the certificate of the service, by the key of the CA.
  unfoldable pub issue_tls : Entropy → Str → Str → Str → Result (Str × Str)
  unfolding tls_template ca_template
  issue_tls entropy svc_name ns ca_key =
      let (tls_key?, entropy') = X.generate_key entropy 2048 in
      attempt tls_key? (λ tls_key.
        attempt (X.pem_encode private_key_block (X.marshal_private_key tls_key)) (λ tls_key_pem.
          attempt
            (X.create_certificate entropy' (tls_template svc_name ns) (ca_template svc_name)
              (X.public_key tls_key) ca_key).0
            (λ cert_bytes.
              attempt (X.pem_encode certificate_block cert_bytes)
                (λ cert_pem. ok (tls_key_pem, cert_pem)))))

  unfoldable pub issue : Entropy → Str → Str → Result (Str × Str × Str)
  unfolding issue_tls ca_template
  issue entropy svc_name ns =
      let (ca_key?, entropy') = X.generate_key entropy 2048 in
      attempt ca_key? (λ ca_key.
        let (ca_bytes?, entropy'') =
          X.create_certificate entropy' (ca_template svc_name) (ca_template svc_name)
            (X.public_key ca_key) ca_key in
        attempt ca_bytes? (λ ca_bytes. attempt (X.pem_encode certificate_block ca_bytes) (λ ca_pem.
          attempt (X.pem_encode private_key_block (X.marshal_private_key ca_key)) (λ _.
            attempt (issue_tls entropy'' svc_name ns ca_key)
              (λ (tls_key_pem, cert_pem). ok (ca_pem, tls_key_pem, cert_pem))))))

  -- `GenerateCert`: the CA, the key and the certificate.
  unfoldable pub generate_cert : Entropy → Str → Str → (Str × Str × Str) × Option Error
  unfolding issue returned
  generate_cert entropy svc_name ns = returned (issue entropy svc_name ns)
