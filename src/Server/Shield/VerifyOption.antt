-- ===== src/Server/Shield/VerifyOption.antt =====
-- `setVerifyOption` of integrity-shield-server/pkg/shield/request_handler.go.
pub mod Fields
use integrity_shield.Base.{
  Str, bytes, join, ◌==◌, Bool, true, false, List, [], ◌∷◌, ◌++◌, is_empty, Result, ok, err,
  if◌then◌else◌,
}
use integrity_shield.External.Kube.{Kube}
use integrity_shield.External.Sigstore.{Sigstore, VerifyResourceOption}
use integrity_shield.Server.Parameter.{KeyConfig, ParameterObject}
use integrity_shield.Server.Config.{RequestHandlerConfig, load_key_secret}
use integrity_shield.Server.Shield.Request.{pod_namespace}

abbrev pub annotation_key_domain : Str
annotation_key_domain = bytes "integrityshield.io"

abbrev pub signature_annotation_type_shield : Str
signature_annotation_type_shield = bytes "IntegrityShield"

-- The path that a load gives: empty where it failed.
unfoldable pub path_or_empty : Result Str → Str
path_or_empty (ok path) = path
path_or_empty (err _) = []

module _ (K : Kube) where
  open K use {Cluster, Files}

  -- The loop over the key configurations. A load that fails is logged, and its empty path is
  -- appended all the same.
  unfoldable pub key_path_loop : List KeyConfig → Cluster → List Str → Files → List Str × Files
  unfolding path_or_empty
  key_path_loop [] w paths files = (paths, files)
  key_path_loop (k ∷ rest) w paths files = elim (is_empty k.key_secret_name) [
    | true ↦ key_path_loop rest w paths files
    | false ↦
        let (r, files') = load_key_secret K k.key_secret_namespace k.key_secret_name w files in
        key_path_loop rest w (paths ++ (path_or_empty r ∷ [])) files'
  ]

  module _ (S : Sigstore Cluster) where
    abbrev pub Vo : Type 0
    Vo = VerifyResourceOption S.ObjectFieldBinding

    unfoldable pub set_key_path : List KeyConfig → Cluster → Files → Vo → Vo × Files
    set_key_path [] w files vo = (vo, files)
    set_key_path (k ∷ rest) w files vo =
        let (paths, files') = key_path_loop (k ∷ rest) w [] files in
        let key_path_string = join paths (bytes ",") in
        (if is_empty key_path_string then vo else record vo { key_path = key_path_string }, files')

    unfoldable pub merge_ignore_fields : List S.ObjectFieldBinding → Vo → Vo
    merge_ignore_fields [] vo = vo
    merge_ignore_fields (f ∷ fs) vo = record vo { ignore_fields = vo.ignore_fields ++ (f ∷ fs) }

    -- The assignments before the keys are looked at.
    abbrev pub prepared : ParameterObject S → Str → Vo
    prepared param signature_annotation_type = record (param.verify_resource_option) {
      check_dry_run_for_apply = true;
      image_ref = param.image_ref;
      dry_run_namespace = pod_namespace K;
      annotation_key_domain =
          if signature_annotation_type == signature_annotation_type_shield
          then annotation_key_domain
          else param.verify_resource_option.annotation_key_domain;
    }

    -- The option is a field of the parameters, which it changes: both come back.
    unfoldable pub set_verify_option :
        ParameterObject S
        → RequestHandlerConfig S
        → Str
        → Cluster
        → Files
        → ParameterObject S × Files
    set_verify_option param config signature_annotation_type w files =
        let (vo, files') =
          set_key_path param.key_configs w files (prepared param signature_annotation_type) in
        (
          record param {
            verify_resource_option =
                merge_ignore_fields config.request_filter_profile.ignore_fields vo;
          },
          files',
        )
