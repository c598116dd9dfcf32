-- ===== src/Operator/Resources/Compare.antt =====
-- The comparison of two deployments (integrity-shield-operator/resources/deploy.go).
pub mod Fields
pub mod Equality
use integrity_shield.Base.{
  ℕ, Str, ◌==◌, byte_eq, Bool, true, false, List, [], ◌∷◌, length, Option, none, some, not, ◌&&◌,
  if◌then◌else◌, Outcome, returns, panics,
}
use integrity_shield.Operator.Objects.{Labels}
use integrity_shield.Operator.Pods.{
  VolumeMount, ContainerPort, EnvVar, Container, PodTemplateSpec, Deployment,
}

-- `reflect.DeepEqual` of slices, pointers, maps and the structs that are compared.
module _ {ℓ} {A : Type ℓ} (same : A → A → Bool) where
  unfoldable pub same_list : List A → List A → Bool
  same_list [] [] = true
  same_list [] (_ ∷ _) = false
  same_list (_ ∷ _) [] = false
  same_list (x ∷ xs) (y ∷ ys) = same x y && same_list xs ys

  unfoldable pub same_option : Option A → Option A → Bool
  same_option none none = true
  same_option none (some _) = false
  same_option (some _) none = false
  same_option (some x) (some y) = same x y

abbrev pub same_bool : Bool → Bool → Bool
same_bool b c = if b then c else not c

unfoldable pub same_entry : Str × Str → Str × Str → Bool
same_entry a b = (a.0 == b.0) && (a.1 == b.1)

unfoldable pub same_mount : VolumeMount → VolumeMount → Bool
unfolding same_option
same_mount a b =
    (a.mount_path == b.mount_path)
    && ((a.name == b.name)
        && (same_bool a.read_only b.read_only
            && ((a.sub_path == b.sub_path)
                && ((a.sub_path_expr == b.sub_path_expr)
                    && same_option ◌==◌ a.mount_propagation b.mount_propagation))))

unfoldable pub same_port : ContainerPort → ContainerPort → Bool
same_port a b =
    (a.name == b.name)
    && (byte_eq a.container_port b.container_port
        && ((a.protocol == b.protocol)
            && (byte_eq a.host_port b.host_port && (a.host_ip == b.host_ip))))

unfoldable pub same_env : EnvVar → EnvVar → Bool
unfolding same_option
same_env a b =
    (a.name == b.name) && ((a.value == b.value) && same_option ◌==◌ a.value_from b.value_from)

unfoldable pub equal_labels : Labels → Labels → Bool
unfolding same_option same_list same_entry
equal_labels = same_option (same_list same_entry)

unfoldable pub equal_annotations : Labels → Labels → Bool
unfolding same_option same_list same_entry
equal_annotations = same_option (same_list same_entry)

unfoldable pub equal_containers : Container → Container → Bool
unfolding same_option same_list same_mount same_port same_env
equal_containers expected found =
    if not (found.name == expected.name)
    then false
    else if not (found.image == expected.image)
    then false
    else if not (found.image_pull_policy == expected.image_pull_policy)
    then false
    else if not (same_option (same_list same_mount) found.volume_mounts expected.volume_mounts)
    then false
    else if not (same_option ◌==◌ found.security_context expected.security_context)
    then false
    else if not (same_option (same_list same_port) found.ports expected.ports)
    then false
    else if not (same_option (same_list ◌==◌) found.args expected.args)
    then false
    else if not (same_option (same_list same_env) found.env expected.env)
    then false
    else true

-- `EqualContainers` of the first elements; an index out of range panics.
unfoldable pub equal_first : List Container → List Container → Outcome Bool
unfolding equal_containers
equal_first [] found = panics
equal_first (e ∷ _) [] = panics
equal_first (e ∷ _) (f ∷ _) = returns (equal_containers e f)

unfoldable pub equal_pods : PodTemplateSpec → PodTemplateSpec → Outcome Bool
unfolding equal_labels equal_annotations equal_first
equal_pods expected found =
    if not (equal_labels found.labels expected.labels)
    then returns false
    else if not (equal_annotations found.annotations expected.annotations)
    then returns false
    else if not (found.spec.service_account_name == expected.spec.service_account_name)
    then returns false
    else if not (byte_eq (length found.spec.containers) (length expected.spec.containers))
    then returns false
    else equal_first expected.spec.containers found.spec.containers

unfoldable pub equal_deployments : Deployment → Deployment → Outcome Bool
unfolding equal_labels equal_pods
equal_deployments expected found =
    if not (equal_labels found.meta.labels expected.meta.labels)
    then returns false
    else equal_pods expected.spec.template found.spec.template
