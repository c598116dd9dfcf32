-- ===== src/Observer/Verify.antt =====
-- `ObserveResources` of observer/pkg/observer/verify_resource.go.
pub mod Reports
use integrity_shield.Base.{
  ℕ, Str, bytes, ◌==◌, has_prefix, first_part, Bool, true, false, List, [], ◌∷◌, ◌++◌, is_empty,
  not, if◌then◌else◌, Option, none, some, Result, ok, err, Error,
}
use integrity_shield.External.Kube.{Kube}
use integrity_shield.External.Sigstore.{Sigstore, VerifyResourceOption, VerifyResourceResult}
use integrity_shield.External.Dynamic.{Dynamic}
use integrity_shield.Server.Parameter.{KeyConfig}
use integrity_shield.Server.Config.{load_key_secret}
use integrity_shield.Server.Shield.Request.{pod_namespace}
use integrity_shield.Server.Shield.Mutation.{is_zero}

module _ (K : Kube) (S : Sigstore K.Cluster) (D : Dynamic K.Cluster S.Object) where
  open K use {Cluster, Files}
  open S use {Object, ObjectFieldBinding, DiffResult, diff_size, diff_string, verify_resource}
  open D use {kind, group, version, name, namespace}

  pub record VerifyResultDetail : Type 0 where
    pub time : Str
    pub namespace : Str
    pub name : Str
    pub kind : Str
    pub api_group : Str
    pub api_version : Str
    pub error : Bool
    pub message : Str
    pub violation : Bool
    pub verify_resource_result : Option (VerifyResourceResult DiffResult)

  -- The loop over the keys: it ends at the first in the namespace of the resource, and leaves an
  -- empty path where its secret cannot be loaded. The observer's `LoadKeySecret` is a copy of the
  -- server's.
  unfoldable pub key_loop : List KeyConfig → Object → Cluster → Files → Str × Files
  key_loop [] resource w files = ([], files)
  key_loop (s ∷ secrets) resource w files =
      if s.key_secret_namespace == namespace resource
      then (let (key, files') =
            load_key_secret K s.key_secret_namespace s.key_secret_name w files in
          elim key [ err _ ↦ ([], files') | ok path ↦ (path, files') ])
      else key_loop secrets resource w files

  unfoldable pub observer_option :
      Str → List ObjectFieldBinding → Str → VerifyResourceOption ObjectFieldBinding
  unfolding pod_namespace
  observer_option image_ref ignore_fields key_path = record {
    check_dry_run_for_apply = true;
    provenance = true;
    image_ref = image_ref;
    dry_run_namespace = pod_namespace K;
    annotation_key_domain = [];
    key_path = key_path;
    ignore_fields = ignore_fields;
  }

  unfoldable pub result_message : VerifyResourceResult DiffResult → Str
  result_message result =
      if result.in_scope
      then (if result.verified
          then bytes "singed by a valid signer: " ++ result.signer
          else (let by_signer =
                if is_empty result.signer
                then bytes "no signature found"
                else bytes "signer config not matched, this is signed by " ++ result.signer in
              elim (result.diff) [
                | none ↦ by_signer
                | some d ↦
                    if is_zero (diff_size d)
                    then by_signer
                    else bytes "diff found: " ++ diff_string d
              ]))
      else bytes "not protected"

  -- The detail of a resource. One that was verified keeps no group and version.
  unfoldable pub detail_of :
      Str → Object → Result (VerifyResourceResult DiffResult) → VerifyResultDetail
  unfolding result_message
  detail_of time resource (err e) = record {
    time = time;
    namespace = namespace resource;
    name = name resource;
    kind = kind resource;
    api_group = group resource;
    api_version = version resource;
    error = true;
    message = e.message;
    violation = true;
    verify_resource_result = none;
  }
  detail_of time resource (ok result) = record {
    time = time;
    namespace = namespace resource;
    name = name resource;
    kind = kind resource;
    api_group = [];
    api_version = [];
    error = false;
    message = first_part (bytes " (Request: {") (result_message result);
    violation = if result.verified then false else true;
    verify_resource_result = some result;
  }

  -- The results, in the order of the resources, at a time that is printed already.
  unfoldable pub observe_resources :
      Str
      → List Object
      → Str
      → List ObjectFieldBinding
      → List KeyConfig
      → Cluster
      → Files
      → List VerifyResultDetail × Files
  unfolding key_loop observer_option detail_of
  observe_resources time [] image_ref ignore_fields secrets w files = ([], files)
  observe_resources time (resource ∷ resources) image_ref ignore_fields secrets w files =
      let (key_path, files') = key_loop secrets resource w files in
      let detail =
        detail_of time resource
          (verify_resource w resource (observer_option image_ref ignore_fields key_path)) in
      let (later, files'') =
        observe_resources time resources image_ref ignore_fields secrets w files' in
      (detail ∷ later, files'')
