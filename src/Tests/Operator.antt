-- ===== src/Tests/Operator.antt =====
-- The cleanup of an installation, and the theorems about it at concrete inputs.
use integrity_shield.Base.{
  if◌then◌else◌, Str, bytes, ◌==◌, ◌≡◌, refl, true, false, List, [], ◌∷◌, not, any, keep,
  if◌then◌else◌, none, ok, err, Error, not_found,
}
use integrity_shield.Operator.Types.{cleanup_finalizer_name}
use integrity_shield.Tests.Instance.{shield}
use integrity_shield.Operator.Deletion.{
  Api, Names, no_requeue, contains_string, remove_string, delete_cluster_scoped_children_resources,
  finalize,
}
use integrity_shield.Operator.Deletion.Cleanup.{
  Cleared, children, delete_cluster_scoped_children_resources_iff, finalize_iff,
}
use integrity_shield.Operator.Creation.{KindApi, create_or, left_alone}
use integrity_shield.Operator.Creation.Passes.{create_or_settled}

abbrev missing : Error
missing = record { reason = not_found; message = bytes "no such object" }

-- A cluster is the names of its objects.
abbrev named : Api (List Str)
named = record {
  Object = λ _. Str;
  get = λ w _ n. if any (λ m. m == n) w then ok n else err missing;
  delete = λ w _ o. (none, keep (λ m. not (m == o)) w);
  update_instance = λ w _. (none, w);
}

abbrev names : Names
names = record {
  cluster_role_for_ishield = λ _. bytes "role";
  cluster_role_binding_for_ishield = λ _. bytes "binding";
  constraint_template_for_ishield = λ _. bytes "template";
  validating_webhook_configuration_for_ishield = λ _. bytes "webhook";
  manifest_integrity_profile_crd = λ _. bytes "profiles";
  pod_security_policy = λ _. bytes "policy";
  cluster_role_for_observer = λ _. bytes "observer";
  cluster_role_binding_for_observer = λ _. bytes "observer-binding";
  verify_resource_result_crd = λ _. bytes "results";
}

abbrev installed : List Str
installed = bytes "role" ∷ bytes "webhook" ∷ bytes "policy" ∷ bytes "mine" ∷ []

cleans :
    delete_cluster_scoped_children_resources named names shield installed
    ≡ (none, bytes "mine" ∷ [])
unfolding delete_cluster_scoped_children_resources bytes ◌==◌ any keep
cleans = refl

delete_cluster_scoped_children_resources_iff_example :
    Cleared named (children names shield) installed (bytes "mine" ∷ [])
delete_cluster_scoped_children_resources_iff_example =
    (delete_cluster_scoped_children_resources_iff named names shield installed
        (bytes "mine" ∷ [])).0
      cleans

has_finalizer : contains_string shield.finalizers cleanup_finalizer_name ≡ true
unfolding contains_string bytes ◌==◌ any
has_finalizer = refl

finalizes : finalize named names shield installed ≡ ((no_requeue, none), bytes "mine" ∷ [])
unfolding finalize bytes ◌==◌ any keep
finalizes = refl

finalize_iff_example :
    (cleaned : List Str) × Cleared named (children names shield) installed cleaned
    × (named.update_instance cleaned
          (record shield { finalizers = remove_string shield.finalizers cleanup_finalizer_name })
        ≡ (none, bytes "mine" ∷ []))
finalize_iff_example =
    (finalize_iff named names shield installed has_finalizer (bytes "mine" ∷ [])).0 finalizes

-- A cluster is the names of its ConfigMaps.
abbrev config_maps : KindApi (List Str)
config_maps = record {
  Object = Str;
  name = λ o. o;
  namespace = λ _. [];
  get = λ w _ n. if any (λ m. m == n) w then ok n else err missing;
  create = λ w o. (none, o ∷ w);
  update = λ w _. (none, w);
  set_controller_reference = λ _ o. ok o;
}

still :
    (create_or config_maps
      (left_alone config_maps)
      (λ _. [])
      shield
      (bytes "config")
      (bytes "config" ∷ [])).0.0.requeue
    ≡ false
unfolding create_or left_alone any bytes ◌==◌
still = refl

fine :
    (create_or config_maps
      (left_alone config_maps)
      (λ _. [])
      shield
      (bytes "config")
      (bytes "config" ∷ [])).0.1
    ≡ none
unfolding create_or left_alone any bytes ◌==◌
fine = refl

create_or_settled_example :
    (expected : Str) × (found : Str) × (config_maps.set_controller_reference shield (bytes "config")
      ≡ ok expected)
    × (config_maps.get (bytes "config" ∷ []) [] expected ≡ ok found)
    × ((create_or config_maps
          (left_alone config_maps)
          (λ _. [])
          shield
          (bytes "config")
          (bytes "config" ∷ [])).1
        ≡ bytes "config" ∷ [])
create_or_settled_example =
    create_or_settled config_maps (λ _. []) shield (bytes "config") (bytes "config" ∷ []) still fine
