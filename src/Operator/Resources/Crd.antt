-- ===== src/Operator/Resources/Crd.antt =====
-- The definitions of the custom resources, and Gatekeeper's constraint template
-- (integrity-shield-operator/resources/crd.go and gatekeeper.go).
use integrity_shield.Base.{
  ℕ, zero, suc, Str, bytes, has_prefix, Bool, true, [], ◌∷◌, ◌++◌, length, if◌then◌else◌,
}
use integrity_shield.Operator.Objects.{
  object_meta, CrdNames, CustomResourceDefinition, ConstraintTemplate,
}
use integrity_shield.Operator.Types.{IntegrityShield}

unfoldable pub build_crd : Str → Str → CrdNames → Bool → CustomResourceDefinition
build_crd name namespace crd_names namespaced = record {
  meta = object_meta name namespace;
  spec = record {
    group = bytes "apis.integrityshield.io";
    names = crd_names;
    scope = if namespaced then bytes "Namespaced" else bytes "Cluster";
    versions =
        record {
          name = bytes "v1alpha1";
          served = true;
          storage = true;
          preserve_unknown_fields = true;
        }
        ∷ [];
  };
}

unfoldable pub build_manifest_integrity_profile_crd : IntegrityShield → CustomResourceDefinition
unfolding build_crd
build_manifest_integrity_profile_crd cr =
    build_crd (bytes "manifestintegrityprofiles.apis.integrityshield.io") cr.namespace
      (record {
        kind = bytes "ManifestIntegrityProfile";
        plural = bytes "manifestintegrityprofiles";
        list_kind = bytes "ManifestIntegrityProfileList";
        singular = bytes "manifestintegrityprofile";
        short_names = bytes "mip" ∷ bytes "mips" ∷ [];
      })
      true

unfoldable pub build_verify_resource_result_crd : IntegrityShield → CustomResourceDefinition
unfolding build_crd
build_verify_resource_result_crd cr =
    build_crd (bytes "verifyresourcestatuses.apis.integrityshield.io") cr.namespace
      (record {
        kind = bytes "VerifyResourceStatus";
        plural = bytes "verifyresourcestatuses";
        list_kind = bytes "VerifyResourceStatusList";
        singular = bytes "verifyresourcestatus";
        short_names = bytes "vrs" ∷ [];
      })
      true

unfoldable pub drop : ℕ → Str → Str
drop zero s = s
drop (suc n) [] = []
drop (suc n) (c ∷ s) = drop n s

-- `strings.Replace(s, old, new, 1)`, for an `old` that is not empty.
unfoldable pub replace_once : Str → Str → Str → Str
unfolding has_prefix
replace_once [] old new = []
replace_once (c ∷ s) old new =
    let rest = replace_once s old new in
    if has_prefix (c ∷ s) old then new ++ drop (length old) (c ∷ s) else c ∷ rest

abbrev pub server_namespace_mark : Str
server_namespace_mark = bytes "RPLACE_WITH_SERVER_NAMESPSCE"

unfoldable pub build_constraint_template_for_ishield : IntegrityShield → ConstraintTemplate
unfolding replace_once
build_constraint_template_for_ishield cr = record {
  meta = object_meta (bytes "manifestintegrityconstraint") cr.namespace;
  crd_kind = bytes "ManifestIntegrityConstraint";
  preserve_unknown_fields = true;
  targets =
      record {
        target = bytes "admission.k8s.gatekeeper.sh";
        rego = replace_once cr.spec.rego server_namespace_mark cr.namespace;
      }
      ∷ [];
}
