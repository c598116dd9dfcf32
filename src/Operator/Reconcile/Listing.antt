-- ===== src/Operator/Reconcile/Listing.antt =====
-- The handlers of an instance, one by one
-- (integrity-shield-operator/controllers/integrityshield_controller.go).
use integrity_shield.Base.{
  Str, Bool, true, false, if◌then◌else◌, List, [], ◌++◌, map, Memᴰ, some, ok, ◌≡◌, ◌≢◌, refl, subst,
}
use mathlib.Core.List.Memᴰ.{of_map}
use mathlib.Core.List.Memᴰ.{map as mem_map}
use integrity_shield.Operator.Types.{IntegrityShield}
use integrity_shield.Operator.Client.{Client, ObjectOf}
use integrity_shield.Operator.Reconcile.{
  installation, common_handlers, observer_handlers, gatekeeper_handlers, admission_handlers,
}
use integrity_shield.Operator.Resources.Crd.{
  build_crd, build_manifest_integrity_profile_crd, build_verify_resource_result_crd,
}
use integrity_shield.Operator.Creation.{
  create_or_update_config_map, create_or_update_service_account, create_or_update_role,
  create_or_update_role_binding, create_or_update_secret, create_or_update_service,
  create_or_update_cluster_role, create_or_update_cluster_role_binding,
  create_or_update_pod_security_policy, create_or_update_crd, create_or_update_deployment,
}
use integrity_shield.Operator.Handlers.{
  create_or_update_manifest_integrity_profile_crd, create_or_update_verify_resource_result_crd,
  create_or_update_request_handler_config, create_or_update_ac_config,
  create_or_update_observer_config, create_or_update_ishield_api_service_account,
  create_or_update_observer_service_account, create_or_update_cluster_role_binding_for_ishield,
  create_or_update_observer_cluster_role_binding_for_ishield,
  create_or_update_cluster_role_for_ishield, create_or_update_observer_cluster_role_for_ishield,
  create_or_update_role_binding_for_ishield, create_or_update_role_for_ishield,
  create_or_update_ishield_policy, create_or_update_tls_secret, create_or_update_ac_tls_secret,
  create_or_update_ishield_server_deployment, create_or_update_admission_controller_deployment,
  create_or_update_observer_deployment, create_or_update_webhook_service,
  create_or_update_api_service,
}
use integrity_shield.Operator.Reconcile.Laws.{ClientIsLawful}
use integrity_shield.Operator.Reconcile.Entries.{Entry}
use integrity_shield.Operator.Reconcile.Installed.{
  common_entries, observer_entries, gatekeeper_entries, admission_entries,
}
use integrity_shield.Operator.Reconcile.Rounds.{AllReady, steps_of}
use integrity_shield.Operator.Reconcile.Keys.{
  Key, common_keys, observer_keys, gatekeeper_keys, admission_keys, installed_keys,
}
use integrity_shield.Operator.Reconcile.Separate.{
  task, Avoids, avoids_none, avoids_next, Apart, apart_none, apart_next, Differ-plain, Differ-some,
  Avoids-none,
}

module _ {Cluster : Type 0} (C : Client Cluster) where
  abbrev pub key_of : Entry C → Key
  key_of e = e.key

  -- Every object of a list of keys is there.
  abbrev pub AllThere : List Key → Cluster → Type 0
  AllThere keys w =
      (key : Key) → Memᴰ key keys → (p : ObjectOf key.0) × (C.get w key.0 key.1 key.2 ≡ ok p)

  pub ready-AllThere :
      (es : List (Entry C)) (w : Cluster)
      → AllReady (map (task C) es) w
      → AllThere (map key_of es) w
  ready-AllThere es w all key m =
      let (e, me, p) = of_map key_of es m in
      subst (λ (key : Key). (p : ObjectOf key.0) × (C.get w key.0 key.1 key.2 ≡ ok p)) p
        (e.there w (all (task C e) (mem_map (task C) me)))

  module _ (law : ClientIsLawful C) (instance : IntegrityShield) where
    abbrev pub entries_of : Bool → Bool → List (Entry C)
    entries_of o g =
        common_entries C law instance
        ++ ((if o then observer_entries C law instance else [])
            ++ (if g then gatekeeper_entries C law instance else admission_entries C law instance))

    steps-entries :
        (o g : Bool)
        → steps_of (map (task C) (entries_of o g))
          ≡ common_handlers C instance
            ++ ((if o then observer_handlers C instance else [])
                ++ (if g then gatekeeper_handlers C instance else admission_handlers C instance))
    unfolding common_handlers observer_handlers gatekeeper_handlers admission_handlers
        common_entries observer_entries gatekeeper_entries admission_entries
        create_or_update_manifest_integrity_profile_crd create_or_update_verify_resource_result_crd
        create_or_update_request_handler_config create_or_update_ac_config
        create_or_update_observer_config create_or_update_ishield_api_service_account
        create_or_update_observer_service_account create_or_update_cluster_role_binding_for_ishield
        create_or_update_observer_cluster_role_binding_for_ishield
        create_or_update_cluster_role_for_ishield create_or_update_observer_cluster_role_for_ishield
        create_or_update_role_binding_for_ishield create_or_update_role_for_ishield
        create_or_update_ishield_policy create_or_update_tls_secret create_or_update_ac_tls_secret
        create_or_update_ishield_server_deployment create_or_update_admission_controller_deployment
        create_or_update_observer_deployment create_or_update_webhook_service
        create_or_update_api_service create_or_update_config_map create_or_update_service_account
        create_or_update_role create_or_update_role_binding create_or_update_secret
        create_or_update_service create_or_update_cluster_role create_or_update_cluster_role_binding
        create_or_update_pod_security_policy create_or_update_crd create_or_update_deployment
    steps-entries true true = refl
    steps-entries true false = refl
    steps-entries false true = refl
    steps-entries false false = refl

    abbrev pub entries : List (Entry C)
    entries = entries_of instance.spec.observer.enabled instance.spec.use_gatekeeper

    pub steps-installation : steps_of (map (task C) entries) ≡ installation C instance
    unfolding installation
    steps-installation = steps-entries instance.spec.observer.enabled instance.spec.use_gatekeeper

    pub keys-entries : (o g : Bool) → map key_of (entries_of o g) ≡ installed_keys instance o g
    unfolding installed_keys common_keys observer_keys gatekeeper_keys admission_keys common_entries
        observer_entries gatekeeper_entries admission_entries build_verify_resource_result_crd
        build_manifest_integrity_profile_crd build_crd
    keys-entries true true = refl
    keys-entries true false = refl
    keys-entries false true = refl
    keys-entries false false = refl

    abbrev pub server_name : Bool → Str
    server_name g = if g then instance.spec.server.name else instance.spec.controller_container.name

    Apart-gatekeeper : Apart C (gatekeeper_entries C law instance)
    unfolding gatekeeper_entries
    Apart-gatekeeper = apart_next (Avoids-none C _) (
        apart_next (avoids_next (Differ-plain C) avoids_none)
          (apart_next (Avoids-none C _) apart_none))

    Apart-admission : Apart C (admission_entries C law instance)
    unfolding admission_entries
    Apart-admission = apart_next (Avoids-none C _) (
        apart_next (Avoids-none C _) (
          apart_next (Avoids-none C _) (
            apart_next (avoids_next (Differ-plain C) avoids_none)
              (apart_next (Avoids-none C _) apart_none))))

    Apart-observer :
        (es : List (Entry C))
        → Avoids C (some instance.spec.observer.name) es
        → Apart C es
        → Apart C (observer_entries C law instance ++ es)
    unfolding observer_entries
    Apart-observer es a h = apart_next (Avoids-none C _) (
        apart_next (Avoids-none C _) (
          apart_next (Avoids-none C _)
            (apart_next (Avoids-none C _) (apart_next (Avoids-none C _) (apart_next a h)))))

    Apart-common :
        (es : List (Entry C)) → Apart C es → Apart C (common_entries C law instance ++ es)
    unfolding common_entries
    Apart-common es h = apart_next (Avoids-none C _) (
        apart_next (Avoids-none C _) (
          apart_next (Avoids-none C _) (
            apart_next (Avoids-none C _) (
              apart_next (Avoids-none C _)
                (apart_next (Avoids-none C _) (apart_next (Avoids-none C _) h))))))

    Avoids-servers :
        (g : Bool)
        → instance.spec.observer.name ≢ server_name g
        → Avoids C
            (some instance.spec.observer.name)
            (if g then gatekeeper_entries C law instance else admission_entries C law instance)
    unfolding gatekeeper_entries admission_entries
    Avoids-servers true h =
        avoids_next (Differ-plain C)
          (avoids_next (Differ-some C h) (avoids_next (Differ-plain C) avoids_none))
    Avoids-servers false h = avoids_next (Differ-plain C) (
        avoids_next (Differ-plain C) (
          avoids_next (Differ-plain C)
            (avoids_next (Differ-some C h) (avoids_next (Differ-plain C) avoids_none))))

    Apart-servers :
        (g : Bool)
        → Apart C
            (if g then gatekeeper_entries C law instance else admission_entries C law instance)
    Apart-servers true = Apart-gatekeeper
    Apart-servers false = Apart-admission

    pub Apart-entries :
        (o g : Bool) → instance.spec.observer.name ≢ server_name g → Apart C (entries_of o g)
    Apart-entries true g h =
        Apart-common _ (Apart-observer _ (Avoids-servers g h) (Apart-servers g))
    Apart-entries false g h = Apart-common _ (Apart-servers g)
