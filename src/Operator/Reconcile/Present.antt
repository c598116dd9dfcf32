-- ===== src/Operator/Reconcile/Present.antt =====
-- What the cluster has after a pass that goes through
-- (integrity-shield-operator/controllers/integrityshield_controller.go).
use integrity_shield.Base.{if◌then◌else◌, Memᴰ, ok, ◌≡◌, ◌≢◌, subst}
use integrity_shield.Operator.Types.{IntegrityShield}
use integrity_shield.Operator.Client.{Client, ObjectOf}
use integrity_shield.Operator.Reconcile.{run_handlers, installation}
use integrity_shield.Operator.Reconcile.Laws.{ClientIsLawful}
use integrity_shield.Operator.Reconcile.Rounds.{Settled, Settled-AllReady}
use integrity_shield.Operator.Reconcile.Separate.{tasks-IsLawful}
use integrity_shield.Operator.Reconcile.Keys.{Key, installed}
use integrity_shield.Operator.Reconcile.Listing.{
  AllThere, ready-AllThere, entries, steps-installation, keys-entries, Apart-entries,
}
use integrity_shield.Operator.Reconcile.References.{references, references_installed}

module _ {Cluster : Type 0} (C : Client Cluster) (law : ClientIsLawful C)
    (instance : IntegrityShield)
    (differs : instance.spec.observer.name ≢ (
      if instance.spec.use_gatekeeper
      then instance.spec.server.name
      else instance.spec.controller_container.name))
    (w : Cluster) (settled : Settled (run_handlers (installation C instance) w)) where
  settled-AllThere : AllThere C (installed instance) (run_handlers (installation C instance) w).1
  settled-AllThere =
      subst (λ keys. AllThere C keys (run_handlers (installation C instance) w).1)
        (keys-entries C law instance instance.spec.observer.enabled instance.spec.use_gatekeeper)
        (ready-AllThere C (entries C law instance) _ (
          Settled-AllReady _
            (tasks-IsLawful C (entries C law instance) (
              Apart-entries C law instance instance.spec.observer.enabled
                instance.spec.use_gatekeeper differs))
            (installation C instance) (steps-installation C law instance) w settled))

  -- Where the handlers before the last one all go through, with no error and no wish for another
  -- pass, and the observer's deployment and the other one have different names, the cluster has
  -- each object that the role bindings, the deployments and the webhook of the instance refer to:
  -- their service accounts and roles, the secrets and ConfigMaps of their pods, and the service.
  -- The API server is asked to do what `ClientIsLawful` says.
  pub references_found :
      {key : Key}
      → Memᴰ key (references instance)
      → (p : ObjectOf key.0) × (C.get (run_handlers (installation C instance) w).1 key.0 key.1 key.2
          ≡ ok p)
  references_found {key} m = settled-AllThere key (references_installed instance m)
