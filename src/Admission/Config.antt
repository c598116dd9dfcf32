-- ===== src/Admission/Config.antt =====
-- admission-controller/pkg/config/admission_controller_config.go: which namespaces and kinds the
-- controller looks at.
pub mod Scope
use integrity_shield.Base.{
  Str, bytes, ◌==◌, Bool, true, false, List, [], ◌∷◌, is_empty, if◌then◌else◌, ◌&&◌, any, not,
}
use integrity_shield.External.Sigstore.{Sigstore}
use integrity_shield.Server.Shield.Request.{GroupVersionKind}

pub record NamespaceSelector : Type 0 where
  pub include : List Str
  pub exclude : List Str

pub record Allow : Type 0 where
  pub kinds : List GroupVersionKind

pub record SideEffectConfig : Type 0 where
  pub update_mip_status_for_denied_request : Bool

pub record AdmissionControllerConfig : Type 0 where
  pub in_scope_namespace_selector : NamespaceSelector
  pub allow : Allow
  pub side_effect : SideEffectConfig
  pub mode : Str
  pub options : List Str

unfoldable pub check_if_detect_only : Str → Bool
check_if_detect_only mode = mode == bytes "detect"

module _ {Cluster : Type 0} (S : Sigstore Cluster) where
  open S use {match_with_pattern_array, match_single_pattern}

  unfoldable pub namespace_match : NamespaceSelector → Str → Bool
  namespace_match ns rns =
      let excluded =
        if is_empty ns.exclude then false else match_with_pattern_array rns ns.exclude in
      let included =
        if is_empty ns.include then true else match_with_pattern_array rns ns.include in
      if included && excluded then false else if not included then false else true

  -- A pattern that is empty matches everything.
  unfoldable pub field_match : Str → Str → Bool
  field_match pattern value =
      if is_empty pattern then true else if match_single_pattern pattern value then true else false

  unfoldable pub kind_match : GroupVersionKind → GroupVersionKind → Bool
  unfolding field_match
  kind_match kind k =
      field_match k.group kind.group
      && field_match k.kind kind.kind
      && field_match k.version kind.version

  unfoldable pub allow_match : Allow → GroupVersionKind → Bool
  unfolding any kind_match
  allow_match allow kind = any (kind_match kind) allow.kinds
