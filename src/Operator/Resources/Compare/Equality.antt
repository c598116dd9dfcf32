-- ===== src/Operator/Resources/Compare/Equality.antt =====
-- When two deployments count as equal (integrity-shield-operator/resources/deploy.go).
use integrity_shield.Base.{
  ◌==◌, ==_iff, byte_eq, byte_eq_iff, Bool, true, false, List, [], ◌∷◌, length, not, if◌then◌else◌,
  Outcome, returns, panics, ◌≡◌, ◌↔◌, refl, ap, subst, ◌∙◌, arith,
}
use integrity_shield.Operator.Pods.{Container, PodTemplateSpec, Deployment}
use integrity_shield.Operator.Resources.Compare.{
  same_list, same_option, same_mount, same_port, same_env, equal_labels, equal_annotations,
  equal_containers, equal_first, equal_pods, equal_deployments,
}
use integrity_shield.Operator.Resources.Compare.Fields.{
  same_list-Tests, same_option-Tests, same_mount-Tests, same_port-Tests, same_env-Tests,
  equal_labels-Tests, equal_annotations-Tests,
}

-- The fields of two containers that are compared are the same.
abbrev pub SameContainer : Container → Container → Type 0
SameContainer e f =
    (f.name ≡ e.name)
    × (f.image ≡ e.image)
    × (f.image_pull_policy ≡ e.image_pull_policy)
    × (f.volume_mounts ≡ e.volume_mounts)
    × (f.security_context ≡ e.security_context)
    × (f.ports ≡ e.ports)
    × (f.args ≡ e.args)
    × (f.env ≡ e.env)

module _ (e f : Container) where
  mounts :
      (same_option (same_list same_mount) f.volume_mounts e.volume_mounts ≡ true)
      ↔ (f.volume_mounts ≡ e.volume_mounts)
  mounts =
      same_option-Tests (same_list same_mount) (same_list-Tests same_mount same_mount-Tests)
        f.volume_mounts e.volume_mounts

  contexts :
      (same_option ◌==◌ f.security_context e.security_context ≡ true)
      ↔ (f.security_context ≡ e.security_context)
  contexts = same_option-Tests ◌==◌ ==_iff f.security_context e.security_context

  ports : (same_option (same_list same_port) f.ports e.ports ≡ true) ↔ (f.ports ≡ e.ports)
  ports =
      same_option-Tests (same_list same_port) (same_list-Tests same_port same_port-Tests) f.ports
        e.ports

  arguments : (same_option (same_list ◌==◌) f.args e.args ≡ true) ↔ (f.args ≡ e.args)
  arguments = same_option-Tests (same_list ◌==◌) (same_list-Tests ◌==◌ ==_iff) f.args e.args

  environments : (same_option (same_list same_env) f.env e.env ≡ true) ↔ (f.env ≡ e.env)
  environments =
      same_option-Tests (same_list same_env) (same_list-Tests same_env same_env-Tests) f.env e.env

  equal_containers-true :
      equal_containers e f ≡ true
      → ((f.name == e.name) ≡ true)
        × ((f.image == e.image) ≡ true)
        × ((f.image_pull_policy == e.image_pull_policy) ≡ true)
        × (same_option (same_list same_mount) f.volume_mounts e.volume_mounts ≡ true)
        × (same_option ◌==◌ f.security_context e.security_context ≡ true)
        × (same_option (same_list same_port) f.ports e.ports ≡ true)
        × (same_option (same_list ◌==◌) f.args e.args ≡ true)
        × (same_option (same_list same_env) f.env e.env ≡ true)
  unfolding equal_containers
  equal_containers-true h = ground arith

  equal_containers_iff : (equal_containers e f ≡ true) ↔ SameContainer e f
  unfolding equal_containers
  equal_containers_iff = (
    λ h.
        let (a, b, c, d, s, p, g, v) = equal_containers-true h in
        (
          (==_iff f.name e.name).0 a,
          (==_iff f.image e.image).0 b,
          (==_iff f.image_pull_policy e.image_pull_policy).0 c,
          mounts.0 d,
          contexts.0 s,
          ports.0 p,
          arguments.0 g,
          environments.0 v,
        ),
    λ h.
        let (a, b, c, d, s, p, g, v) = h in
        ground (
          arith,
          (==_iff f.name e.name).1 a,
          (==_iff f.image e.image).1 b,
          (==_iff f.image_pull_policy e.image_pull_policy).1 c,
          mounts.1 d,
          contexts.1 s,
          ports.1 p,
          arguments.1 g,
          environments.1 v,
        ),
  )

-- The parts of two deployments that are compared are the same, and each has a first container.
abbrev pub SameDeployment : Deployment → Deployment → Type 0
SameDeployment expected found =
    (found.meta.labels ≡ expected.meta.labels)
    × (found.spec.template.labels ≡ expected.spec.template.labels)
    × (found.spec.template.annotations ≡ expected.spec.template.annotations)
    × (found.spec.template.spec.service_account_name
        ≡ expected.spec.template.spec.service_account_name)
    × (length found.spec.template.spec.containers ≡ length expected.spec.template.spec.containers)
    × ((e : Container) × (es : List Container) × (f : Container) × (fs : List Container)
        × (expected.spec.template.spec.containers ≡ e ∷ es)
        × (found.spec.template.spec.containers ≡ f ∷ fs)
        × SameContainer e f)

abbrev FirstSame : List Container → List Container → Type 0
FirstSame expected found =
    (e : Container) × (es : List Container) × (f : Container) × (fs : List Container) × (expected
      ≡ e ∷ es)
    × (found ≡ f ∷ fs)
    × SameContainer e f

returns-true : {b : Bool} → returns b ≡ returns true → b ≡ true
returns-true p = cc

panics-ne-returns : {b : Bool} → panics ≡ returns b → ⊥
panics-ne-returns p = cc

equal_first_iff : (es fs : List Container) → (equal_first es fs ≡ returns true) ↔ FirstSame es fs
unfolding equal_first
equal_first_iff [] fs =
    (λ h. absurd (panics-ne-returns h), λ (s : FirstSame [] fs). absurd (nil-ne-cons-container s.4))
  where
    nil-ne-cons-container : {x : Container} {xs : List Container} → [] ≡ x ∷ xs → ⊥
    nil-ne-cons-container p = cc
equal_first_iff (e ∷ es) [] = (
  λ h. absurd (panics-ne-returns h),
  λ (s : FirstSame (e ∷ es) []). absurd (nil-ne-cons-container s.5),
)
  where
    nil-ne-cons-container : {x : Container} {xs : List Container} → [] ≡ x ∷ xs → ⊥
    nil-ne-cons-container p = cc
equal_first_iff (e ∷ es) (f ∷ fs) = (
  λ h. (e, es, f, fs, refl, refl, (equal_containers_iff e f).0 (returns-true h)),
  λ (s : FirstSame (e ∷ es) (f ∷ fs)).
      ap returns ((equal_containers_iff e f).1 (moved (heads s.4) (heads s.5) s.6)),
)
  where
    heads : {x y : Container} {xs ys : List Container} → x ∷ xs ≡ y ∷ ys → y ≡ x
    heads p = cc

    moved : {e' f' : Container} → e' ≡ e → f' ≡ f → SameContainer e' f' → SameContainer e f
    moved p q s = subst (λ (c : Container × Container). SameContainer c.0 c.1) (λ i. (p i, q i)) s

-- A guard that answers no otherwise.
passed :
    {b : Bool} {r : Outcome Bool}
    → (if not b then returns false else r) ≡ returns true
    → (b ≡ true) × (r ≡ returns true)
passed {b = true} h = (refl, h)
passed {b = false} h = absurd (false-ne-true (returns-true h))
  where
    false-ne-true : false ≡ true → ⊥
    false-ne-true p = cc

module _ (expected found : Deployment) where
  abbrev t : PodTemplateSpec
  t = expected.spec.template

  abbrev u : PodTemplateSpec
  u = found.spec.template

  equal_deployments-true :
      equal_deployments expected found ≡ returns true
      → (equal_labels found.meta.labels expected.meta.labels ≡ true)
        × (equal_labels u.labels t.labels ≡ true)
        × (equal_annotations u.annotations t.annotations ≡ true)
        × ((u.spec.service_account_name == t.spec.service_account_name) ≡ true)
        × (byte_eq (length u.spec.containers) (length t.spec.containers) ≡ true)
        × (equal_first t.spec.containers u.spec.containers ≡ returns true)
  unfolding equal_deployments equal_pods
  equal_deployments-true h =
      let (a, h₁) = passed h in
      let (b, h₂) = passed h₁ in
      let (c, h₃) = passed h₂ in
      let (d, h₄) = passed h₃ in let (e, h₅) = passed h₄ in (a, b, c, d, e, h₅)

  equal_deployments_of :
      equal_labels found.meta.labels expected.meta.labels ≡ true
      → equal_labels u.labels t.labels ≡ true
      → equal_annotations u.annotations t.annotations ≡ true
      → (u.spec.service_account_name == t.spec.service_account_name) ≡ true
      → byte_eq (length u.spec.containers) (length t.spec.containers) ≡ true
      → equal_deployments expected found ≡ equal_first t.spec.containers u.spec.containers
  unfolding equal_deployments equal_pods
  equal_deployments_of a b c d e = ground arith

  -- Two deployments count as equal exactly when their labels, the labels, annotations, service
  -- account and number of containers of their pods, and eight fields of their first containers
  -- are the same. So nothing else of them is looked at, neither the replicas nor the volumes nor
  -- a second container.
  pub equal_deployments_iff :
      (equal_deployments expected found ≡ returns true) ↔ SameDeployment expected found
  equal_deployments_iff = (
    λ h.
        let (a, b, c, d, l, g) = equal_deployments-true h in
        (
          (equal_labels-Tests found.meta.labels expected.meta.labels).0 a,
          (equal_labels-Tests u.labels t.labels).0 b,
          (equal_annotations-Tests u.annotations t.annotations).0 c,
          (==_iff u.spec.service_account_name t.spec.service_account_name).0 d,
          (byte_eq_iff (length u.spec.containers) (length t.spec.containers)).0 l,
          (equal_first_iff t.spec.containers u.spec.containers).0 g,
        ),
    λ s.
        equal_deployments_of ((equal_labels-Tests found.meta.labels expected.meta.labels).1 s.0)
          ((equal_labels-Tests u.labels t.labels).1 s.1)
          ((equal_annotations-Tests u.annotations t.annotations).1 s.2)
          ((==_iff u.spec.service_account_name t.spec.service_account_name).1 s.3)
          ((byte_eq_iff (length u.spec.containers) (length t.spec.containers)).1 s.4)
        ∙ (equal_first_iff t.spec.containers u.spec.containers).1 s.5,
  )
