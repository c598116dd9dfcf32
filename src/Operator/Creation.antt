-- ===== src/Operator/Creation.antt =====
-- The handlers that create and update (integrity-shield-operator/controllers/integrityshield.go).
pub mod Cases
pub mod Passes
use integrity_shield.Base.{
  ℕ, Str, Bool, true, false, [], if◌then◌else◌, Option, none, some, Result, ok, err, Error,
  is_not_found, is_already_exists,
}
use integrity_shield.Operator.Types.{IntegrityShield}
use integrity_shield.Operator.Deletion.{RecResult, no_requeue, requeue_soon}

abbrev pub requeue_now : RecResult
requeue_now = record { requeue = true; requeue_after = 0 }

-- The client for one kind of object, the namespace first, and `SetControllerReference`, which
-- fills in the owner.
pub record KindApi (Cluster : Type 0) : Type 1 where
  pub Object : Type 0
  pub name : Object → Str
  pub namespace : Object → Str
  pub get : Cluster → Str → Str → Result Object
  pub create : Cluster → Object → Option Error × Cluster
  pub update : Cluster → Object → Option Error × Cluster
  pub set_controller_reference : IntegrityShield → Object → Result Object

module _ {Cluster : Type 0} (A : KindApi Cluster) where
  open A use {Object, name, namespace, get, create, update, set_controller_reference}

  abbrev pub Pass : Type 0
  Pass = (RecResult × Option Error) × Cluster

  -- The creation of an object that was not found.
  unfoldable pub create_missing : Object → Cluster → Pass
  create_missing expected w =
      let (e?, w') = create w expected in
      elim e? [
        | none ↦ ((requeue_soon, none), w')
        | some e ↦
            if is_already_exists e then ((requeue_now, none), w') else ((no_requeue, some e), w')
      ]

  -- What the handlers share: the object is created if it is not there, and what is done with one
  -- that is there is the last argument.
  unfoldable pub create_or :
      (Object → Object → Cluster → Pass)
      → (Object → Str)
      → IntegrityShield
      → Object
      → Cluster
      → Pass
  unfolding create_missing
  create_or present namespace_of instance built w = elim (set_controller_reference instance built) [
    | err e ↦ ((no_requeue, some e), w)
    | ok expected ↦ elim (get w (namespace_of expected) (name expected)) [
      | ok found ↦ present expected found w
      | err e ↦ if is_not_found e then create_missing expected w else ((no_requeue, some e), w)
    ]
  ]

  unfoldable pub left_alone : Object → Object → Cluster → Pass
  left_alone expected found w = ((no_requeue, none), w)

  unfoldable pub create_or_update_config_map : IntegrityShield → Object → Cluster → Pass
  unfolding create_or left_alone
  create_or_update_config_map = create_or left_alone namespace

  unfoldable pub create_or_update_service_account : IntegrityShield → Object → Cluster → Pass
  unfolding create_or left_alone
  create_or_update_service_account instance =
      create_or left_alone (λ _. instance.namespace) instance

  unfoldable pub create_or_update_role : IntegrityShield → Object → Cluster → Pass
  unfolding create_or left_alone
  create_or_update_role instance = create_or left_alone (λ _. instance.namespace) instance

  unfoldable pub create_or_update_role_binding : IntegrityShield → Object → Cluster → Pass
  unfolding create_or left_alone
  create_or_update_role_binding instance = create_or left_alone (λ _. instance.namespace) instance

  unfoldable pub create_or_update_secret : IntegrityShield → Object → Cluster → Pass
  unfolding create_or left_alone
  create_or_update_secret instance = create_or left_alone (λ _. instance.namespace) instance

  unfoldable pub create_or_update_service : IntegrityShield → Object → Cluster → Pass
  unfolding create_or left_alone
  create_or_update_service instance = create_or left_alone (λ _. instance.namespace) instance

  unfoldable pub create_or_update_cluster_role : IntegrityShield → Object → Cluster → Pass
  unfolding create_or left_alone
  create_or_update_cluster_role = create_or left_alone (λ _. [])

  unfoldable pub create_or_update_cluster_role_binding : IntegrityShield → Object → Cluster → Pass
  unfolding create_or left_alone
  create_or_update_cluster_role_binding = create_or left_alone (λ _. [])

  -- The next two build their object themselves; it is given here.
  unfoldable pub create_or_update_pod_security_policy : IntegrityShield → Object → Cluster → Pass
  unfolding create_or left_alone
  create_or_update_pod_security_policy = create_or left_alone (λ _. [])

  unfoldable pub create_or_update_constraint_template : IntegrityShield → Object → Cluster → Pass
  unfolding create_or left_alone
  create_or_update_constraint_template instance =
      create_or left_alone (λ _. instance.namespace) instance

  -- `reflect.DeepEqual` of the specs, and the expected object with the metadata of the other.
  module _ (same_spec : Object → Object → Bool) (with_meta : Object → Object → Object) where
    unfoldable pub update_crd : Object → Object → Cluster → Pass
    update_crd expected found w =
        if same_spec expected found
        then ((no_requeue, none), w)
        else (let (e?, w') = update w (with_meta expected found) in
            elim e? [ some e ↦ ((no_requeue, some e), w') | none ↦ ((no_requeue, none), w') ])

    unfoldable pub create_or_update_crd : IntegrityShield → Object → Cluster → Pass
    unfolding create_or update_crd
    create_or_update_crd = create_or update_crd (λ _. [])

  -- `EqualDeployments`, and the object that is there with the labels and the spec of the expected.
  module _ (equal_deployments : Object → Object → Bool) (with_spec : Object → Object → Object) where
    unfoldable pub update_deployment : Object → Object → Cluster → Pass
    update_deployment expected found w =
        if equal_deployments expected found
        then ((no_requeue, none), w)
        else (let (e?, w') = update w (with_spec found expected) in
            elim e? [ some e ↦ ((no_requeue, some e), w') | none ↦ ((requeue_now, none), w') ])

    unfoldable pub create_or_update_deployment : IntegrityShield → Object → Cluster → Pass
    unfolding create_or update_deployment
    create_or_update_deployment instance =
        create_or update_deployment (λ _. instance.namespace) instance
