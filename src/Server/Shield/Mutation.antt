-- ===== src/Server/Shield/Mutation.antt =====
-- `getMatchedIgnoreFields`, `mutationCheck` and `skipObjectsMatch` of
-- integrity-shield-server/pkg/shield/request_handler.go.
pub mod Differences
use integrity_shield.Base.{
  ℕ, zero, suc, Str, bytes, Bool, true, false, List, [], ◌∷◌, ◌++◌, is_empty, Option, none, some,
  Result, ok, err, if◌then◌else◌, any,
}
use integrity_shield.External.Sigstore.{Sigstore}

-- The fields that no comparison looks at.
unfoldable pub mutation_mask : List Str
mutation_mask =
    bytes "metadata.annotations.namespace"
    ∷ bytes "metadata.annotations.kubectl.\"kubernetes.io/last-applied-configuration\""
    ∷ bytes "metadata.annotations.deprecated.daemonset.template.generation"
    ∷ bytes "metadata.creationTimestamp"
    ∷ bytes "metadata.uid"
    ∷ bytes "metadata.generation"
    ∷ bytes "metadata.managedFields"
    ∷ bytes "metadata.selfLink"
    ∷ bytes "metadata.resourceVersion"
    ∷ bytes "status"
    ∷ []

abbrev pub is_zero : ℕ → Bool
is_zero zero = true
is_zero (suc _) = false

module _ {Cluster : Type 0} (S : Sigstore Cluster) where
  open S use {Object, ObjectReference, ObjectFieldBinding, Node, DiffResult, reference_match}
  open S use {field_list_match, new_from_bytes, mask, to_map, new_from_map, diff, diff_size}
  open S use {unfiltered}

  unfoldable pub get_matched_ignore_fields :
      List ObjectFieldBinding → List ObjectFieldBinding → Object → List Str
  get_matched_ignore_fields pi ci resource =
      (field_list_match pi resource).1 ++ (field_list_match ci resource).1

  -- The masked object that is compared.
  unfoldable pub masked : Node → Option Node
  masked v = new_from_map (to_map (mask v mutation_mask))

  -- The test after the differences are computed.
  unfoldable pub unmatched_diff : Option DiffResult → List Str → Bool
  unmatched_diff none ignore_fields = false
  unmatched_diff (some dr) ignore_fields =
      if is_zero (diff_size dr)
      then false
      else if is_zero (diff_size (unfiltered dr ignore_fields))
      then false
      else true

  -- Whether an update changes a field that is not ignored.
  unfoldable pub mutation_check : Str → Str → List Str → Result Bool
  unfolding masked unmatched_diff
  mutation_check raw_old_object raw_object ignore_fields = elim (new_from_bytes raw_object) [
    | err e ↦ err e
    | ok node ↦ elim node [
      | none ↦ ok false
      | some v ↦ elim (new_from_bytes raw_old_object) [
        | err e ↦ err e
        | ok old_node ↦ elim old_node [
          | none ↦ ok false
          | some old ↦ ok (unmatched_diff (diff (masked old) (masked v)) ignore_fields)
        ]
      ]
    ]
  ]

  unfoldable pub skip_objects_match : List ObjectReference → Object → Bool
  unfolding any
  skip_objects_match l obj = if is_empty l then false else any (λ r. reference_match r obj) l
