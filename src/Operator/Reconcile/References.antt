-- ===== src/Operator/Reconcile/References.antt =====
-- The objects that the installed ones refer to (integrity-shield-operator/resources).
use integrity_shield.Base.{
  Str, bytes, ◌==◌, any, Bool, true, false, List, [], ◌∷◌, ◌++◌, map, Memᴰ, if◌then◌else◌, none,
  some, inl, inr, refl,
}
use mathlib.Core.List.Memᴰ.{append_left, append_right, append_cases, cast}
use integrity_shield.Operator.Objects.{
  config_map, secret, service_account, role, cluster_role, service, RoleBinding, Subject,
  ValidatingWebhookConfiguration, ValidatingWebhook,
}
use integrity_shield.Operator.Pods.{Deployment, Volume, secret_source, empty_dir, EnvVar, Container}
use integrity_shield.Operator.Types.{IntegrityShield}
use integrity_shield.Operator.Resources.Deploy.{
  build_deployment_for_ishield_server, build_deployment_for_admission_controller,
  build_deployment_for_observer, secret_volume, empty_dir_volume,
}
use integrity_shield.Operator.Resources.Roles.{
  build_cluster_role_binding_for_ishield, build_role_binding_for_ishield,
  build_cluster_role_binding_for_observer,
}
use integrity_shield.Operator.Resources.Webhook.{build_validating_webhook_configuration_for_ishield}
use integrity_shield.Operator.Reconcile.Keys.{
  Key, common_keys, observer_keys, gatekeeper_keys, admission_keys, installed_keys, installed,
}

-- The variables that name a ConfigMap to the program in the container.
abbrev config_variables : List Str
config_variables =
    bytes "REQUEST_HANDLER_CONFIG_NAME"
    ∷ bytes "CONTROLLER_CONFIG_NAME"
    ∷ bytes "OBSERVER_CONFIG_NAME"
    ∷ []

unfoldable pub secrets_of : Str → List Volume → List Key
secrets_of ns [] = []
secrets_of ns (v ∷ vs) =
    let rest = secrets_of ns vs in
    elim (v.source) [ secret_source name _ ↦ (secret, ns, name) ∷ rest | empty_dir ↦ rest ]

unfoldable pub configs_of : Str → List EnvVar → List Key
configs_of ns [] = []
configs_of ns (v ∷ vs) =
    let rest = configs_of ns vs in
    if any (λ n. n == v.name) config_variables then (config_map, ns, v.value) ∷ rest else rest

unfoldable pub environment_of : List Container → List EnvVar
environment_of [] = []
environment_of (c ∷ cs) =
    let rest = environment_of cs in elim (c.env) [ some vs ↦ vs ++ rest | none ↦ rest ]

-- What a deployment needs of its namespace: the service account, the secrets that it mounts and
-- the ConfigMaps that its containers read.
unfoldable pub deployment_references : Deployment → List Key
unfolding secrets_of configs_of environment_of
deployment_references d =
    let ns = d.meta.namespace in
    let pod = d.spec.template.spec in
    (service_account, ns, pod.service_account_name)
    ∷ (secrets_of ns pod.volumes ++ configs_of ns (environment_of pod.containers))

-- The accounts and the role of a binding; a ClusterRole is looked for in any namespace.
unfoldable pub binding_references : RoleBinding → List Key
binding_references b =
    let role_kind = if b.role_ref.kind == bytes "Role" then role else cluster_role in
    (role_kind, b.meta.namespace, b.role_ref.name)
    ∷ map (λ (s : Subject). (service_account, s.namespace, s.name)) b.subjects

unfoldable pub webhook_references : ValidatingWebhookConfiguration → List Key
webhook_references v =
    map (λ (h : ValidatingWebhook). (service, h.service.namespace, h.service.name)) v.webhooks

module _ (instance : IntegrityShield) where
  abbrev common_references : List Key
  common_references =
      binding_references (build_role_binding_for_ishield instance)
      ++ binding_references (build_cluster_role_binding_for_ishield instance)

  abbrev observer_references : List Key
  observer_references =
      binding_references (build_cluster_role_binding_for_observer instance)
      ++ deployment_references (build_deployment_for_observer instance)

  abbrev gatekeeper_references : List Key
  gatekeeper_references = deployment_references (build_deployment_for_ishield_server instance)

  abbrev admission_references : List Key
  admission_references =
      deployment_references (build_deployment_for_admission_controller instance)
      ++ webhook_references (build_validating_webhook_configuration_for_ishield instance)

  abbrev references_of : Bool → Bool → List Key
  references_of o g =
      common_references
      ++ ((if o then observer_references else [])
          ++ (if g then gatekeeper_references else admission_references))

  -- What the objects of the instance refer to.
  unfoldable pub references : List Key
  references = references_of instance.spec.observer.enabled instance.spec.use_gatekeeper

-- Every element of the second list is in the first.
data Within (ys : List Key) : List Key → Type 0 where
  within_none : Within ys []
  within_next : {x : Key} {xs : List Key} → Memᴰ x ys → Within ys xs → Within ys (x ∷ xs)

within : {ys xs : List Key} {key : Key} → Within ys xs → Memᴰ key xs → Memᴰ key ys
within within_none m = elim m [ ]
within (within_next k r) (Memᴰ.head e) = cast e k
within (within_next k r) (Memᴰ.tail m) = within r m

Within-append : {ys xs zs : List Key} → Within ys xs → Within ys zs → Within ys (xs ++ zs)
Within-append within_none h = h
Within-append (within_next k r) h = within_next k (Within-append r h)

module _ {A : Type 0} where
  first : {a : A} {xs : List A} → Memᴰ a (a ∷ xs)
  first = Memᴰ.head refl

  second : {a b : A} {xs : List A} → Memᴰ b (a ∷ b ∷ xs)
  second = Memᴰ.tail first

  third : {a b c : A} {xs : List A} → Memᴰ c (a ∷ b ∷ c ∷ xs)
  third = Memᴰ.tail second

  fourth : {a b c d : A} {xs : List A} → Memᴰ d (a ∷ b ∷ c ∷ d ∷ xs)
  fourth = Memᴰ.tail third

  sixth : {a b c d e f : A} {xs : List A} → Memᴰ f (a ∷ b ∷ c ∷ d ∷ e ∷ f ∷ xs)
  sixth = Memᴰ.tail (Memᴰ.tail fourth)

  fifth : {a b c d e : A} {xs : List A} → Memᴰ e (a ∷ b ∷ c ∷ d ∷ e ∷ xs)
  fifth = Memᴰ.tail fourth

module _ (instance : IntegrityShield) where
  common-Within : Within (common_keys instance) (common_references instance)
  unfolding common_keys binding_references build_role_binding_for_ishield
      build_cluster_role_binding_for_ishield bytes ◌==◌
  common-Within =
      within_next fourth (within_next third (within_next sixth (within_next third within_none)))

  observer-Within :
      Within (common_keys instance ++ observer_keys instance) (observer_references instance)
  unfolding common_keys observer_keys binding_references build_cluster_role_binding_for_observer
      deployment_references secrets_of configs_of environment_of build_deployment_for_observer
      empty_dir_volume bytes ◌==◌ any
  observer-Within = within_next (after_common fourth) (
      within_next (after_common third) (
        within_next (after_common third)
          (within_next second (within_next (after_common second) within_none))))
    where
      after_common :
          {key : Key}
          → Memᴰ key (observer_keys instance)
          → Memᴰ key (common_keys instance ++ observer_keys instance)
      after_common m = append_right (common_keys instance) m

  gatekeeper-Within :
      Within (common_keys instance ++ gatekeeper_keys instance) (gatekeeper_references instance)
  unfolding common_keys gatekeeper_keys deployment_references secrets_of configs_of environment_of
      build_deployment_for_ishield_server empty_dir_volume secret_volume bytes ◌==◌ any
  gatekeeper-Within =
      within_next third
        (within_next (append_right (common_keys instance) first) (within_next second within_none))

  admission-Within :
      Within (common_keys instance ++ admission_keys instance) (admission_references instance)
  unfolding common_keys admission_keys deployment_references secrets_of configs_of environment_of
      build_deployment_for_admission_controller webhook_references
      build_validating_webhook_configuration_for_ishield empty_dir_volume secret_volume bytes ◌==◌
      any
  admission-Within = within_next third (
      within_next (append_right (common_keys instance) third) (
        within_next (append_right (common_keys instance) second) (
          within_next second
            (within_next (append_right (common_keys instance) fifth) within_none))))

  Within-mono :
      {ys zs xs : List Key}
      → ((key : Key) → Memᴰ key ys → Memᴰ key zs)
      → Within ys xs
      → Within zs xs
  Within-mono h within_none = within_none
  Within-mono h (within_next m r) = within_next (h _ m) (Within-mono h r)

  -- What is in two lists is in two lists that have at least what they have.
  past :
      (cs ps qs : List Key)
      → ((key : Key) → Memᴰ key ps → Memᴰ key qs)
      → (key : Key) → Memᴰ key (cs ++ ps)
      → Memᴰ key (cs ++ qs)
  past cs ps qs h key m = elim (append_cases cs m) [
    | inl p ↦ append_left qs p
    | inr p ↦ append_right cs (h key p)
  ]

  abbrev server_keys : Bool → List Key
  server_keys g = if g then gatekeeper_keys instance else admission_keys instance

  servers-Within :
      (g : Bool)
      → Within
          (common_keys instance ++ server_keys g)
          (if g then gatekeeper_references instance else admission_references instance)
  servers-Within true = gatekeeper-Within
  servers-Within false = admission-Within

  references-Within :
      (o g : Bool) → Within (installed_keys instance o g) (references_of instance o g)
  unfolding installed_keys
  references-Within true g =
      Within-append
        (Within-mono (λ _ m. append_left (observer_keys instance ++ server_keys g) m) common-Within)
        (Within-append
          (Within-mono
            (past (common_keys instance) (observer_keys instance)
              (observer_keys instance ++ server_keys g) (λ _ m. append_left (server_keys g) m))
            observer-Within)
          (Within-mono
            (past (common_keys instance) (server_keys g) (observer_keys instance ++ server_keys g)
              (λ _ m. append_right (observer_keys instance) m))
            (servers-Within g)))
  references-Within false g =
      Within-append (Within-mono (λ _ m. append_left (server_keys g) m) common-Within)
        (servers-Within g)

  -- The references are to objects of the list.
  pub references_installed :
      {key : Key} → Memᴰ key (references instance) → Memᴰ key (installed instance)
  unfolding references
  references_installed m =
      within (references-Within instance.spec.observer.enabled instance.spec.use_gatekeeper) m
