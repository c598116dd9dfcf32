-- ===== src/Operator/Certificates/Issued.antt =====
-- What `GenerateCert` (integrity-shield-operator/cert/cert.go) returns without an error.
use integrity_shield.Base.{
  ℕ, Str, none, some, Error, Result, ok, err, err-ne-ok, ok-injective, ◌≡◌, refl, ap, ◌∙◌,
}
use integrity_shield.Operator.Certificates.{
  Entropy, Crypto, certificate_block, private_key_block, attempt, ca_template, tls_template,
  issue_tls, issue, returned, generate_cert,
}

-- A chain that ends well has passed its first call.
attempt_done :
    {A B : Type 0} (r : Result A) (f : A → Result B) {b : B}
    → attempt r f ≡ ok b
    → (a : A) × (r ≡ ok a) × (f a ≡ ok b)
attempt_done (ok a) f h = (a, refl, h)
attempt_done (err e) f h = absurd (err-ne-ok h)

module _ (X : Crypto) (now : ℕ) (svc_name ns : Str) where
  -- The PEM of a key and of a certificate with this key for the service, which the CA's key signs.
  abbrev pub IsServiceCert : Str → Str → Str → Type 0
  IsServiceCert ca_key key cert =
      (tls_key : Str) × (entropy : Entropy) × (cert_bytes : Str) × (X.pem_encode private_key_block
          (X.marshal_private_key tls_key)
        ≡ ok key)
      × ((X.create_certificate entropy (tls_template X now svc_name ns) (ca_template X now svc_name)
            (X.public_key tls_key) ca_key).0
          ≡ ok cert_bytes)
      × (X.pem_encode certificate_block cert_bytes ≡ ok cert)

  -- The PEM of a certificate of the CA, which its own key signs.
  abbrev pub IsCa : Str → Str → Type 0
  IsCa ca_key ca =
      (entropy : Entropy) × (ca_bytes : Str) × ((X.create_certificate entropy
          (ca_template X now svc_name) (ca_template X now svc_name) (X.public_key ca_key) ca_key).0
        ≡ ok ca_bytes)
      × (X.pem_encode certificate_block ca_bytes ≡ ok ca)

  -- A CA, and a key with a certificate that this CA signs.
  abbrev pub Issued : Str × Str × Str → Type 0
  Issued pems = (ca_key : Str) × IsCa ca_key pems.0 × IsServiceCert ca_key pems.1 pems.2

  issue_tls-IsServiceCert :
      (entropy : Entropy) (ca_key : Str) {key cert : Str}
      → issue_tls X now entropy svc_name ns ca_key ≡ ok (key, cert)
      → IsServiceCert ca_key key cert
  unfolding issue_tls
  issue_tls-IsServiceCert entropy ca_key h =
      let (tls_key, _, h₁) = attempt_done (X.generate_key entropy 2048).0 _ h in
      let (key, p, h₂) = attempt_done _ _ h₁ in
      let (cert_bytes, q, h₃) = attempt_done _ _ h₂ in
      let (cert, s, h₄) = attempt_done _ _ h₃ in
      let e = ok-injective h₄ in
      (tls_key, _, cert_bytes, p ∙ ap ok (λ i. (e i).0), q, s ∙ ap ok (λ i. (e i).1))

  issue-Issued :
      (entropy : Entropy) {pems : Str × Str × Str}
      → issue X now entropy svc_name ns ≡ ok pems
      → Issued pems
  unfolding issue
  issue-Issued entropy {pems} h =
      let (ca_key, _, h₁) = attempt_done (X.generate_key entropy 2048).0 _ h in
      let signed =
        X.create_certificate (X.generate_key entropy 2048).1 (ca_template X now svc_name)
          (ca_template X now svc_name) (X.public_key ca_key) ca_key in
      let (ca_bytes, p, h₂) = attempt_done signed.0 _ h₁ in
      let (ca, q, h₃) = attempt_done (X.pem_encode certificate_block ca_bytes) _ h₂ in
      let (_, _, h₄) =
        attempt_done (X.pem_encode private_key_block (X.marshal_private_key ca_key)) _ h₃ in
      let (tls, t, h₅) = attempt_done (issue_tls X now signed.1 svc_name ns ca_key) _ h₄ in
      let e = ok-injective h₅ in
      (
        ca_key,
        ((X.generate_key entropy 2048).1, ca_bytes, p, q ∙ ap ok (λ i. (e i).0)),
        issue_tls-IsServiceCert signed.1 ca_key (t ∙ ap ok (λ i. ((e i).1, (e i).2))),
      )

  some-ne-none : {e : Error} → some e ≡ none → ⊥
  some-ne-none p = cc

  generated :
      (r : Result (Str × Str × Str)) {pems : Str × Str × Str}
      → returned r ≡ (pems, none)
      → r ≡ ok pems
  unfolding returned
  generated (ok p) h = λ i. ok (h i).0
  generated (err e) h = absurd (some-ne-none (λ i. (h i).1))

  -- What is generated without an error is a CA and a certificate of the service that it signs.
  pub generate_cert-Issued :
      (entropy : Entropy) {pems : Str × Str × Str}
      → generate_cert X now entropy svc_name ns ≡ (pems, none)
      → Issued pems
  unfolding generate_cert
  generate_cert-Issued entropy h =
      issue-Issued entropy (generated (issue X now entropy svc_name ns) h)
