-- ===== src/External/Sigstore.antt =====
-- github.com/sigstore/k8s-manifest-sigstore and the unstructured objects of apimachinery.
use integrity_shield.Base.{ℕ, Str, Result, Option, List, Bool}

-- The fields of `k8smanifest.VerifyResourceOption` that the program reads or writes.
pub record VerifyResourceOption (ObjectFieldBinding : Type 0) : Type 0 where
  pub check_dry_run_for_apply : Bool
  pub provenance : Bool
  pub image_ref : Str
  pub dry_run_namespace : Str
  -- `AnnotationConfig.AnnotationKeyDomain`
  pub annotation_key_domain : Str
  pub key_path : Str
  pub ignore_fields : List ObjectFieldBinding

-- The fields of `k8smanifest.VerifyResourceResult` that the program reads.
pub record VerifyResourceResult (DiffResult : Type 0) : Type 0 where
  pub in_scope : Bool
  pub verified : Bool
  pub signer : Str
  pub sig_ref : Str
  pub signed_time : Option ℕ
  pub diff : Option DiffResult

pub record Sigstore (Cluster : Type 0) : Type 1 where
  -- `unstructured.Unstructured`
  pub Object : Type 0
  pub ObjectReference : Type 0
  pub ObjectFieldBinding : Type 0
  -- a `mapnode.Node`, and the map that it converts to
  pub Node : Type 0
  pub NodeMap : Type 0
  pub DiffResult : Type 0
  pub unmarshal_object : Str → Result Object
  pub annotations : Object → List (Str × Str)
  -- `ObjectReference.Match`, `ObjectReferenceList.Match`, `ObjectFieldBindingList.Match`
  pub reference_match : ObjectReference → Object → Bool
  pub reference_list_match : List ObjectReference → Object → Bool
  pub field_list_match : List ObjectFieldBinding → Object → Bool × List Str
  -- `k8smnfutil.MatchPattern` (pattern first), `MatchSinglePattern` (pattern first) and
  -- `MatchWithPatternArray` (value first)
  pub match_pattern : Str → Str → Bool
  pub match_single_pattern : Str → Str → Bool
  pub match_with_pattern_array : Str → List Str → Bool
  -- `none` is a nil node
  pub new_from_bytes : Str → Result (Option Node)
  pub mask : Node → List Str → Node
  pub to_map : Node → NodeMap
  -- a nil node where the error, which is dropped, is one
  pub new_from_map : NodeMap → Option Node
  pub diff : Option Node → Option Node → Option DiffResult
  pub diff_size : DiffResult → ℕ
  pub diff_string : DiffResult → Str
  -- the differences that the listed fields do not cover: the second result of `Filter`
  pub unfiltered : DiffResult → List Str → DiffResult
  pub verify_resource :
      Cluster
      → Object
      → VerifyResourceOption ObjectFieldBinding
      → Result (VerifyResourceResult DiffResult)
