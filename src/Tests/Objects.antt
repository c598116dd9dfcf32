-- ===== src/Tests/Objects.antt =====
-- A small API server in memory, for the objects of the operator.
use integrity_shield.Base.{
  Str, bytes, ◌==◌, Bool, true, false, Bool-cases, List, [], ◌∷◌, Option, none, some, Option-cases,
  Result, ok, err, Error, Reason, not_found, already_exists, if◌then◌else◌, ◌||◌, ◌&&◌, ◌≡◌, refl,
  sym, subst, ◌∙◌, inl, inr, ok-injective, arith,
}
use integrity_shield.Operator.Objects.{
  Kind, custom_resource_definition, cluster_role, cluster_role_binding,
  validating_webhook_configuration, constraint_template, pod_security_policy, config_map,
  service_account, role, role_binding, secret, service, deployment, event,
}
use integrity_shield.Operator.Client.{ObjectOf, meta_of}
use integrity_shield.Operator.Reconcile.Laws.{is_cluster_wide}

-- The newest object comes first.
abbrev pub Object : Type 0
Object = (k : Kind) × ObjectOf k

abbrev pub Objects : Type 0
Objects = List Object

-- The object, where it is of the kind.
unfoldable pub as_kind : (j k : Kind) → ObjectOf j → Option (ObjectOf k)
as_kind custom_resource_definition custom_resource_definition o = some o
as_kind cluster_role cluster_role o = some o
as_kind cluster_role_binding cluster_role_binding o = some o
as_kind validating_webhook_configuration validating_webhook_configuration o = some o
as_kind constraint_template constraint_template o = some o
as_kind pod_security_policy pod_security_policy o = some o
as_kind config_map config_map o = some o
as_kind service_account service_account o = some o
as_kind role role o = some o
as_kind role_binding role_binding o = some o
as_kind secret secret o = some o
as_kind service service o = some o
as_kind deployment deployment o = some o
as_kind event event o = some o
as_kind _ _ o = none

pub as_kind_same : (k : Kind) (o : ObjectOf k) → as_kind k k o ≡ some o
unfolding as_kind
as_kind_same custom_resource_definition o = refl
as_kind_same cluster_role o = refl
as_kind_same cluster_role_binding o = refl
as_kind_same validating_webhook_configuration o = refl
as_kind_same constraint_template o = refl
as_kind_same pod_security_policy o = refl
as_kind_same config_map o = refl
as_kind_same service_account o = refl
as_kind_same role o = refl
as_kind_same role_binding o = refl
as_kind_same secret o = refl
as_kind_same service o = refl
as_kind_same deployment o = refl
as_kind_same event o = refl

some-injective : {A : Type 0} {x y : A} → some x ≡ some y → x ≡ y
some-injective e = cc

none-ne-some : {A : Type 0} {x : A} → none ≡ some x → ⊥
none-ne-some e = cc

of_some :
    (j k : Kind) (o : ObjectOf j) (p : ObjectOf k)
    → as_kind j k o ≡ some p
    → ◌≡◌ {A = Object} (j, o) (k, p)
unfolding as_kind
of_some custom_resource_definition custom_resource_definition o p h =
    λ i. (custom_resource_definition, some-injective h i)
of_some cluster_role cluster_role o p h = λ i. (cluster_role, some-injective h i)
of_some cluster_role_binding cluster_role_binding o p h =
    λ i. (cluster_role_binding, some-injective h i)
of_some validating_webhook_configuration validating_webhook_configuration o p h =
    λ i. (validating_webhook_configuration, some-injective h i)
of_some constraint_template constraint_template o p h =
    λ i. (constraint_template, some-injective h i)
of_some pod_security_policy pod_security_policy o p h =
    λ i. (pod_security_policy, some-injective h i)
of_some config_map config_map o p h = λ i. (config_map, some-injective h i)
of_some service_account service_account o p h = λ i. (service_account, some-injective h i)
of_some role role o p h = λ i. (role, some-injective h i)
of_some role_binding role_binding o p h = λ i. (role_binding, some-injective h i)
of_some secret secret o p h = λ i. (secret, some-injective h i)
of_some service service o p h = λ i. (service, some-injective h i)
of_some deployment deployment o p h = λ i. (deployment, some-injective h i)
of_some event event o p h = λ i. (event, some-injective h i)
of_some _ _ o p h = absurd (none-ne-some h)

pub as_kind_some :
    {j k : Kind} {o : ObjectOf j} {p : ObjectOf k}
    → as_kind j k o ≡ some p
    → ◌≡◌ {A = Object} (j, o) (k, p)
as_kind_some {j} {k} {o} {p} h = of_some j k o p h

unfoldable pub pick : Objects → (k : Kind) → (ObjectOf k → Bool) → Result (ObjectOf k)
pick [] k t = err (record { reason = not_found; message = bytes "no such object" })
pick (o ∷ os) k t =
    let rest = pick os k t in
    elim (as_kind o.0 k o.1) [ none ↦ rest | some p ↦ if t p then ok p else rest ]

abbrev pub at_key : (k : Kind) → Str → Str → ObjectOf k → Bool
at_key k ns n o =
    ((meta_of k o).name == n) && (is_cluster_wide k || ((meta_of k o).namespace == ns))

abbrev pub get_object : Objects → (k : Kind) → Str → Str → Result (ObjectOf k)
get_object w k ns n = pick w k (at_key k ns n)

abbrev pub refusal : Reason → Error
refusal r = record { reason = r; message = bytes "refused" }

unfoldable pub create_object : Objects → (k : Kind) → ObjectOf k → Option Error × Objects
create_object w k o = elim (get_object w k (meta_of k o).namespace (meta_of k o).name) [
  | ok _ ↦ (some (refusal already_exists), w)
  | err _ ↦ (none, (k, o) ∷ w)
]

-- The objects but those of a kind that pass a test.
unfoldable pub drop_object : Objects → (k : Kind) → (ObjectOf k → Bool) → Objects
drop_object [] k t = []
drop_object (o ∷ os) k t =
    let rest = drop_object os k t in
    elim (as_kind o.0 k o.1) [ none ↦ o ∷ rest | some p ↦ if t p then rest else o ∷ rest ]

abbrev pub delete_object : Objects → (k : Kind) → ObjectOf k → Option Error × Objects
delete_object w k o = (none, drop_object w k (at_key k (meta_of k o).namespace (meta_of k o).name))

unfoldable pub update_object : Objects → (k : Kind) → ObjectOf k → Option Error × Objects
update_object w k o = (none, (k, o) ∷ w)

module _ (k : Kind) (t : ObjectOf k → Bool) where
  pub pick_first : (w : Objects) (o : ObjectOf k) → t o ≡ true → pick ((k, o) ∷ w) k t ≡ ok o
  unfolding pick
  pick_first w o h = ground (arith, as_kind_same k o)

  pub pick_here :
      (w : Objects) (o : Object) {p : ObjectOf k}
      → as_kind o.0 k o.1 ≡ some p
      → t p ≡ true
      → pick (o ∷ w) k t ≡ ok p
  unfolding pick
  pick_here w o e h = ground arith

  pub pick_past :
      (w : Objects) (o : Object) {p : ObjectOf k}
      → as_kind o.0 k o.1 ≡ some p
      → t p ≡ false
      → pick (o ∷ w) k t ≡ pick w k t
  unfolding pick
  pick_past w o e h = ground arith

  pub pick_other :
      (w : Objects) (o : Object) → as_kind o.0 k o.1 ≡ none → pick (o ∷ w) k t ≡ pick w k t
  unfolding pick
  pick_other w o e = ground arith

  some-ne : {p : ObjectOf k} {e : Error} → err e ≡ ok p → ⊥
  some-ne e = cc

  pub pick-passes : (w : Objects) {p : ObjectOf k} → pick w k t ≡ ok p → t p ≡ true
  unfolding pick
  pick-passes [] h = absurd (some-ne h)
  pick-passes (o ∷ w) {p} h = elim (Option-cases (as_kind o.0 k o.1)) [
    | inl e ↦ pick-passes w (sym (pick_other w o e) ∙ h)
    | inr (q, e) ↦ elim (Bool-cases (t q)) [
      | inl g ↦ subst (λ x. t x ≡ true) (ok-injective (sym (pick_here w o e g) ∙ h)) g
      | inr g ↦ pick-passes w (sym (pick_past w o e g) ∙ h)
    ]
  ]
