-- ===== src/Admission/Config/Scope.antt =====
-- When a namespace is in scope, and when a kind is allowed
-- (admission-controller/pkg/config/admission_controller_config.go).
use integrity_shield.Base.{Str, ◌≡◌, true, false, List, [], ◌∷◌, any_iff, arith, ◌↔◌, ◌⊎◌, Memᴰ}
use integrity_shield.External.Sigstore.{Sigstore}
use integrity_shield.Server.Shield.Request.{GroupVersionKind}
use integrity_shield.Admission.Config.{
  NamespaceSelector, Allow, namespace_match, field_match, kind_match, allow_match,
}

module _ {Cluster : Type 0} (S : Sigstore Cluster) where
  open S use {match_with_pattern_array, match_single_pattern}

  namespace_match_split :
      (include exclude : List Str) (rns : Str)
      → (namespace_match S (record { include = include; exclude = exclude }) rns ≡ true) ↔ (
          ((include ≡ []) ⊎ (match_with_pattern_array rns include ≡ true))
          × ((exclude ≡ []) ⊎ (match_with_pattern_array rns exclude ≡ false)))
  unfolding namespace_match
  namespace_match_split [] [] rns = ground arith
  namespace_match_split [] (e ∷ exclude) rns = ground arith
  namespace_match_split (i ∷ include) [] rns = ground arith
  namespace_match_split (i ∷ include) (e ∷ exclude) rns = ground arith

  -- A namespace is in scope exactly when it matches the patterns to include, or there are none,
  -- and it does not match those to exclude, or there are none.
  pub namespace_match_iff :
      (ns : NamespaceSelector) (rns : Str)
      → (namespace_match S ns rns ≡ true) ↔ (
          ((ns.include ≡ []) ⊎ (match_with_pattern_array rns ns.include ≡ true))
          × ((ns.exclude ≡ []) ⊎ (match_with_pattern_array rns ns.exclude ≡ false)))
  namespace_match_iff ns rns = namespace_match_split ns.include ns.exclude rns

  -- A pattern is empty or matches the value.
  abbrev pub Covers : Str → Str → Type 0
  Covers pattern value = (pattern ≡ []) ⊎ (match_single_pattern pattern value ≡ true)

  field_match_iff :
      (pattern value : Str) → (field_match S pattern value ≡ true) ↔ Covers pattern value
  unfolding field_match
  field_match_iff [] value = ground arith
  field_match_iff (c ∷ pattern) value = ground arith

  kind_match_iff :
      (kind k : GroupVersionKind)
      → (kind_match S kind k ≡ true)
        ↔ (Covers k.group kind.group × Covers k.kind kind.kind × Covers k.version kind.version)
  unfolding kind_match
  kind_match_iff kind k = ground (
    arith,
    field_match_iff k.group kind.group,
    field_match_iff k.kind kind.kind,
    field_match_iff k.version kind.version,
  )

  -- A kind is allowed exactly when an entry of the list covers its group, kind and version.
  pub allow_match_iff :
      (allow : Allow) (kind : GroupVersionKind)
      → (allow_match S allow kind ≡ true) ↔ (
          (k : GroupVersionKind) × Memᴰ k allow.kinds
          × Covers k.group kind.group
          × Covers k.kind kind.kind
          × Covers k.version kind.version)
  unfolding allow_match
  allow_match_iff allow kind = (
    λ h.
        let (k, m, q) = (any_iff (kind_match S kind) allow.kinds).0 h in
        let (g, n, v) = (kind_match_iff kind k).0 q in (k, m, g, n, v),
    λ w.
        (any_iff (kind_match S kind) allow.kinds).1
          (w.0, w.1, (kind_match_iff kind w.0).1 (w.2, w.3, w.4)),
  )
