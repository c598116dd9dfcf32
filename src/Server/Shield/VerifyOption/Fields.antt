-- ===== src/Server/Shield/VerifyOption/Fields.antt =====
-- What the verify option of a request holds (`setVerifyOption` of
-- integrity-shield-server/pkg/shield/request_handler.go).
use mathlib.Core.List.{append-nil, append_assoc}
use integrity_shield.Base.{
  ℕ, zero, suc, pred, Str, bytes, join, ◌==◌, ◌≡◌, refl, ◌≢◌, true, List, [], ◌∷◌, ◌++◌, is_empty,
  length, replicate, append-replicate, All, err, Error, if◌then◌else◌, arith, ap, ◌∙◌,
}
use integrity_shield.External.Kube.{Kube}
use integrity_shield.External.Sigstore.{Sigstore, VerifyResourceOption}
use integrity_shield.Server.Parameter.{KeyConfig, ParameterObject}
use integrity_shield.Server.Config.{RequestHandlerConfig, load_key_secret}
use integrity_shield.Server.Shield.Request.{pod_namespace}
use integrity_shield.Server.Shield.VerifyOption.{
  key_path_loop, set_key_path, merge_ignore_fields, set_verify_option,
  signature_annotation_type_shield, annotation_key_domain, prepared,
}

module _ (K : Kube) where
  open K use {Cluster, Files}

  -- A key configuration whose secret cannot be read.
  abbrev pub IsMissing : Cluster → KeyConfig → Type 0
  IsMissing w k =
      (k.key_secret_name ≢ [])
      × ((e : Error) × (K.secret w k.key_secret_namespace k.key_secret_name ≡ err e))

  key_path_loop-cons_missing :
      (k : KeyConfig) (rest : List KeyConfig) (w : Cluster) (paths : List Str) (files : Files)
      → IsMissing w k
      → key_path_loop K (k ∷ rest) w paths files ≡ key_path_loop K rest w (paths ++ ([] ∷ [])) files
  unfolding key_path_loop load_key_secret
  key_path_loop-cons_missing k rest w paths files (named, (e, unread)) = ground arith

  key_path_loop_missing :
      (ks : List KeyConfig) (w : Cluster) (paths : List Str) (files : Files)
      → All (IsMissing w) ks
      → key_path_loop K ks w paths files ≡ (paths ++ replicate (length ks) [], files)
  unfolding key_path_loop
  key_path_loop_missing [] w paths files h = rw append-nil
  key_path_loop_missing (k ∷ ks) w paths files (h, rest) =
      key_path_loop-cons_missing k ks w paths files h
      ∙ key_path_loop_missing ks w (paths ++ ([] ∷ [])) files rest
      ∙ ap (λ (t : List Str). (t, files)) (append-replicate (length ks) [] paths)

  module _ (S : Sigstore Cluster) where
    merge_ignore_fields_lem :
        (fs : List S.ObjectFieldBinding) (vo : VerifyResourceOption S.ObjectFieldBinding)
        → merge_ignore_fields K S fs vo ≡ record vo { ignore_fields = vo.ignore_fields ++ fs }
    unfolding merge_ignore_fields
    merge_ignore_fields_lem [] vo = rw append-nil
    merge_ignore_fields_lem (f ∷ fs) vo = refl

    set_key_path_others :
        (ks : List KeyConfig) (w : Cluster) (files : Files)
        (vo : VerifyResourceOption S.ObjectFieldBinding)
        → (set_key_path K S ks w files vo).0
          ≡ record vo { key_path = (set_key_path K S ks w files vo).0.key_path }
    unfolding set_key_path
    set_key_path_others [] w files vo = refl
    set_key_path_others (k ∷ ks) w files vo = ground arith

    -- The option of a call: the parameters' ignored fields and then the configuration's, the
    -- image reference of the parameters, a dry run in the pod's namespace, and the annotation
    -- domain of the shield exactly for its own signature type. The other parameters stay.
    set_verify_option_fields :
        (param : ParameterObject S) (config : RequestHandlerConfig S) (t : Str) (w : Cluster)
        (files : Files)
        → let p = (set_verify_option K S param config t w files).0 in
          let old = param.verify_resource_option in
          p ≡ record param {
            verify_resource_option = record {
              check_dry_run_for_apply = true;
              provenance = old.provenance;
              image_ref = param.image_ref;
              dry_run_namespace = pod_namespace K;
              annotation_key_domain =
                  if t == signature_annotation_type_shield
                  then annotation_key_domain
                  else old.annotation_key_domain;
              key_path = p.verify_resource_option.key_path;
              ignore_fields = old.ignore_fields ++ config.request_filter_profile.ignore_fields;
            };
          }
    unfolding set_verify_option
    set_verify_option_fields param config t w files = ground (
      arith,
      merge_ignore_fields_lem config.request_filter_profile.ignore_fields
          (set_key_path K S param.key_configs w files (prepared K S param t)).0,
      set_key_path_others param.key_configs w files (prepared K S param t),
    )

join-replicate_nil : (n : ℕ) → join (replicate n []) (bytes ",") ≡ replicate (pred n) b','
unfolding join bytes
join-replicate_nil zero = refl
join-replicate_nil (suc zero) = refl
join-replicate_nil (suc (suc n)) = ap (λ (t : Str). b',' ∷ t) (join-replicate_nil (suc n))

module _ (K : Kube) (S : Sigstore K.Cluster) (w : K.Cluster) (files : K.Files) where
  set_key_path_missing :
      (ks : List KeyConfig) (vo : VerifyResourceOption S.ObjectFieldBinding)
      → All (IsMissing K w) ks
      → (set_key_path K S ks w files vo).0.key_path ≡ (
          let commas = replicate (pred (length ks)) b',' in
          if is_empty commas then vo.key_path else commas)
  unfolding set_key_path
  set_key_path_missing [] vo h = refl
  set_key_path_missing (k ∷ ks) vo h =
      ground
        (arith, key_path_loop_missing K (k ∷ ks) w [] files h, join-replicate_nil (length (k ∷ ks)))

  -- With key configurations none of whose secrets can be read, the verification goes on: one
  -- configuration leaves the key path of the parameters as it was, and more of them replace it by
  -- the commas between empty paths.
  pub set_verify_option_missing :
      (param : ParameterObject S) (config : RequestHandlerConfig S) (t : Str)
      → All (IsMissing K w) param.key_configs
      → (set_verify_option K S param config t w files).0.verify_resource_option.key_path ≡ (
          let commas = replicate (pred (length param.key_configs)) b',' in
          if is_empty commas then param.verify_resource_option.key_path else commas)
  unfolding set_verify_option
  set_verify_option_missing param config t h =
      ap (λ (v : VerifyResourceOption S.ObjectFieldBinding). v.key_path)
        (merge_ignore_fields_lem K S config.request_filter_profile.ignore_fields _)
      ∙ set_key_path_missing param.key_configs (prepared K S param t) h

  -- The option is part of the parameters: a second call on the same parameters adds the ignored
  -- fields of the configuration once more.
  pub set_verify_option_twice :
      (param : ParameterObject S) (config : RequestHandlerConfig S) (t t' : Str)
      → let p = (set_verify_option K S param config t w files).0 in
        let fields = config.request_filter_profile.ignore_fields in
        (set_verify_option K S p config t' w files).0.verify_resource_option.ignore_fields
        ≡ param.verify_resource_option.ignore_fields ++ (fields ++ fields)
  set_verify_option_twice param config t t' =
      let p = (set_verify_option K S param config t w files).0 in
      let ignored = λ (q : ParameterObject S). q.verify_resource_option.ignore_fields in
      let fields = config.request_filter_profile.ignore_fields in
      ap ignored (set_verify_option_fields K S p config t' w files)
      ∙ ap (λ (l : List S.ObjectFieldBinding). l ++ fields)
          (ap ignored (set_verify_option_fields K S param config t w files))
      ∙ append_assoc (param.verify_resource_option.ignore_fields) fields fields
