-- ===== src/Observer/Run/Summary.antt =====
-- What an observation comes to (`Run` of observer/pkg/observer/observer.go).
use mathlib.Core.List.{append_assoc, append-nil}
use integrity_shield.Base.{
  Str, ◌≡◌, sym, ◌∙◌, ap, Bool, false, false≢true, List, [], ◌∷◌, ◌++◌, map, is_empty-map,
  is_empty-keep, not, length, length-map, keep, any, none, some, returns, panics, arith, inl, inr,
  Bool-cases,
}
use integrity_shield.External.Kube.{Kube}
use integrity_shield.External.Sigstore.{Sigstore, VerifyResourceResult}
use integrity_shield.External.Labels.{Labels}
use integrity_shield.External.Dynamic.{Dynamic}
use integrity_shield.Server.Config.{RequestHandlerConfig}
use integrity_shield.Server.Shield.Request.{load_request_handler_config}
use integrity_shield.Observer.Pattern.{check_if_inscope_constraint}
use integrity_shield.Observer.Constraint.{
  GroupResource, GroupResourceWithTargetNs, ConstraintSpec, load_constraints,
  get_possible_protected_gvks,
}
use integrity_shield.Observer.Constraint.Rules.{get_possible_protected_gvks_lem}
use integrity_shield.Observer.Resources.{get_all_loop}
use integrity_shield.Observer.Verify.{observe_resources}
use integrity_shield.Observer.Verify.Reports.{Reports, AllReported, observe_resources-AllReported}
use integrity_shield.Observer.Export.{
  VerifyResult, VerifyResourceStatusSpec, ObserverConfig, export_verify_result,
  load_observer_config,
}
use integrity_shield.Observer.Run.{
  Codecs, Detail, violation_result, verified_result, summary_loop, observed, export_constraint,
  observe_constraint, run_loop, run,
}

module _ (K : Kube) (S : Sigstore K.Cluster) (L : Labels K.Cluster S.Object)
    (D : Dynamic K.Cluster S.Object) where
  open S use {Object, ObjectFieldBinding, DiffResult}

  abbrev pub is_violation : Detail K S L D → Bool
  is_violation d = d.violation

  abbrev pub is_verified : Detail K S L D → Bool
  is_verified d = not d.violation

  -- The entry of a detail that is no violation.
  unfoldable pub non_violation_result : Detail K S L D → VerifyResult
  non_violation_result d = elim (d.verify_resource_result) [
    | none ↦ violation_result K S L D d
    | some r ↦ verified_result K S L D d r
  ]

  -- A detail that is no violation has a result.
  abbrev Sound : List (Detail K S L D) → Type 0
  Sound [] = Unit
  Sound (d ∷ ds) =
      (d.violation ≡ false
        → (r : VerifyResourceResult DiffResult) × (d.verify_resource_result ≡ some r))
      × Sound ds

  Reports-violation :
      (w : K.Cluster) (image_ref : Str) (ignore_fields : List ObjectFieldBinding)
      (resource : Object) (d : Detail K S L D)
      → Reports K S D w image_ref ignore_fields resource d
      → d.violation ≡ false
      → (r : VerifyResourceResult DiffResult) × (d.verify_resource_result ≡ some r)
  Reports-violation w image_ref ignore_fields resource d (n, k, ns, (key, inl (e, p, q, v, m, r)))
        h =
      absurd (false≢true (sym h ∙ v))
  Reports-violation w image_ref ignore_fields resource d
        (n, k, ns, (key, inr (r, p, q, v, some_result))) h =
      (r, some_result)

  reported-Sound :
      (w : K.Cluster) (image_ref : Str) (ignore_fields : List ObjectFieldBinding)
      (resources : List Object) (ds : List (Detail K S L D))
      → AllReported K S D w image_ref ignore_fields resources ds
      → Sound ds
  reported-Sound w image_ref ignore_fields [] [] all = tt
  reported-Sound w image_ref ignore_fields [] (d ∷ ds) all = absurd all
  reported-Sound w image_ref ignore_fields (r ∷ rs) [] all = tt
  reported-Sound w image_ref ignore_fields (r ∷ rs) (d ∷ ds) all = (
    Reports-violation w image_ref ignore_fields r d all.0,
    reported-Sound w image_ref ignore_fields rs ds all.1,
  )

  summary_loop_lem :
      (ds : List (Detail K S L D)) (violations non_violations : List VerifyResult)
      → Sound ds
      → summary_loop K S L D ds violations non_violations
        ≡ returns (
          violations ++ map (violation_result K S L D) (keep is_violation ds),
          non_violations ++ map non_violation_result (keep is_verified ds),
        )
  unfolding summary_loop keep non_violation_result
  summary_loop_lem [] violations non_violations sound =
      ground (arith, append-nil violations, append-nil non_violations)
  summary_loop_lem (d ∷ ds) violations non_violations (here, later) =
      elim (Bool-cases (d.violation)) [
        | inl v ↦ ground (
          arith,
          summary_loop_lem ds (violations ++ (violation_result K S L D d ∷ [])) non_violations
              later,
          append_assoc violations (violation_result K S L D d ∷ [])
              (map (violation_result K S L D) (keep is_violation ds)),
        )
        | inr v ↦
            let (r, p) = here v in
            ground (
              arith,
              summary_loop_lem ds violations (non_violations ++ (verified_result K S L D d r ∷ []))
                  later,
              append_assoc non_violations (verified_result K S L D d r ∷ [])
                  (map non_violation_result (keep is_verified ds)),
            )
      ]

  module _ (C : Codecs K S L D) (api_resources : List GroupResource)
      (config : RequestHandlerConfig S) (tcconfig : ObserverConfig)
      (constraint : ConstraintSpec K S L D) (w : K.Cluster) (files : K.Files) where
    -- The details of the resources that are listed for the constraint.
    abbrev pub details : List Object → List (Detail K S L D) × K.Files
    details resources =
        observe_resources K S D C.time resources constraint.parameters.image_ref
          (constraint.parameters.verify_resource_option.ignore_fields
            ++ config.request_filter_profile.ignore_fields)
          constraint.parameters.key_configs w files

    observe_constraint_listed :
        {gvks : List GroupResourceWithTargetNs} {resources : List Object}
        → get_possible_protected_gvks K S L D api_resources constraint.match w ≡ some gvks
        → get_all_loop K S D gvks w ≡ returns resources
        → observe_constraint K S L D C api_resources (some config) tcconfig constraint w files
          ≡ returns (
              export_constraint K S L D C tcconfig constraint.parameters.constraint_name
                (details resources).0
                w
                (details resources).1
                (
                  map (violation_result K S L D) (keep is_violation (details resources).0),
                  map non_violation_result (keep is_verified (details resources).0),
                ))
    unfolding observe_constraint
    observe_constraint_listed {gvks} {resources} protected listed = ground (
      arith,
      summary_loop_lem (details resources).0 [] [] (
          reported-Sound w constraint.parameters.image_ref
            (constraint.parameters.verify_resource_option.ignore_fields
              ++ config.request_filter_profile.ignore_fields)
            resources (details resources).0
            (observe_resources-AllReported K S D C.time resources constraint.parameters.image_ref
              (constraint.parameters.verify_resource_option.ignore_fields
                ++ config.request_filter_profile.ignore_fields)
              constraint.parameters.key_configs w files)),
    )

    -- The status that is exported for some details.
    abbrev pub status_of : List (Detail K S L D) → VerifyResourceStatusSpec
    status_of ds = record {
      constraint_name = constraint.parameters.constraint_name;
      violation = any is_violation ds;
      total_violations = length (keep is_violation ds);
      violations = map (violation_result K S L D) (keep is_violation ds);
      non_violations = map non_violation_result (keep is_verified ds);
      observation_time = C.time;
    }

    exported_lem :
        (ds : List (Detail K S L D)) (files' : K.Files)
        → export_constraint K S L D C tcconfig constraint.parameters.constraint_name ds w files' (
          map (violation_result K S L D) (keep is_violation ds),
          map non_violation_result (keep is_verified ds),
        )
          ≡ observed
              (record {
                constraint_name = constraint.parameters.constraint_name;
                violation = any is_violation ds;
                total_violations = length (keep is_violation ds);
                results = ds;
              })
              (export_verify_result K C.new_status_client C.statuses
                (status_of ds)
                (check_if_inscope_constraint constraint.parameters.constraint_name
                  tcconfig.target_constraints)
                (any is_violation ds)
                w).1
              files'
    unfolding export_constraint
    exported_lem ds files' = ground (
      arith,
      is_empty-map (violation_result K S L D) (keep is_violation ds),
      is_empty-keep is_violation ds,
      length-map (keep is_violation ds) (violation_result K S L D),
    )

    -- With a configuration, a constraint whose resources are listed is observed without a panic.
    -- Its details are those of the resources, the number of violations is the number of details
    -- that are violations, there is a violation when one of them is, and the status that is
    -- exported lists these and the others, each in the order of the resources.
    pub observe_constraint_lem :
        {gvks : List GroupResourceWithTargetNs} {resources : List Object}
        → get_possible_protected_gvks K S L D api_resources constraint.match w ≡ some gvks
        → get_all_loop K S D gvks w ≡ returns resources
        → observe_constraint K S L D C api_resources (some config) tcconfig constraint w files
          ≡ returns (
              observed
                (record {
                  constraint_name = constraint.parameters.constraint_name;
                  violation = any is_violation (details resources).0;
                  total_violations = length (keep is_violation (details resources).0);
                  results = (details resources).0;
                })
                (export_verify_result K C.new_status_client C.statuses
                  (status_of (details resources).0)
                  (check_if_inscope_constraint constraint.parameters.constraint_name
                    tcconfig.target_constraints)
                  (any is_violation (details resources).0)
                  w).1
                (details resources).1)
    observe_constraint_lem {gvks} {resources} protected listed =
        observe_constraint_listed protected listed
        ∙ ap returns (exported_lem (details resources).0 (details resources).1)

  protected_some :
      (resources : List GroupResource) (constraint : ConstraintSpec K S L D) (w : K.Cluster)
      → (gvks : List GroupResourceWithTargetNs) × (get_possible_protected_gvks K S L D resources
            constraint.match w
          ≡ some gvks)
  protected_some resources constraint w =
      elim (get_possible_protected_gvks_lem K S L D constraint.match w resources) [
        | inl (all, f) ↦ ([], f)
        | inr (before, r, after, split, all, m, f) ↦ (_, f)
      ]

  observe_unconfigured :
      (C : Codecs K S L D) (api_resources : List GroupResource) (tcconfig : ObserverConfig)
      (constraint : ConstraintSpec K S L D) (w : K.Cluster) (files : K.Files)
      → observe_constraint K S L D C api_resources none tcconfig constraint w files ≡ panics
  unfolding observe_constraint
  observe_unconfigured C api_resources tcconfig constraint w files =
      let (gvks, p) = protected_some api_resources constraint w in ground (arith, p)

  loop_unconfigured :
      (C : Codecs K S L D) (api_resources : List GroupResource) (tcconfig : ObserverConfig)
      (constraint : ConstraintSpec K S L D) (constraints : List (ConstraintSpec K S L D))
      (w : K.Cluster) (files : K.Files)
      → run_loop K S L D C api_resources none tcconfig (constraint ∷ constraints) [] w files
        ≡ panics
  unfolding run_loop
  loop_unconfigured C api_resources tcconfig constraint constraints w files =
      ground (arith, observe_unconfigured C api_resources tcconfig constraint w files)

  -- Without a configuration of the request handler, a run that has a constraint to observe panics.
  pub run_unconfigured :
      (C : Codecs K S L D) (api_resources : List GroupResource) (w : K.Cluster) (files : K.Files)
      {constraint : ConstraintSpec K S L D} {constraints : List (ConstraintSpec K S L D)}
      → (load_request_handler_config K S C.unmarshal w).0 ≡ none
      → (load_constraints K S L D C.spec_of w).0 ≡ constraint ∷ constraints
      → run K S L D C api_resources w files ≡ panics
  unfolding run
  run_unconfigured C api_resources w files {constraint} {constraints} nil loaded = rw nil (
      rw loaded (
        loop_unconfigured C api_resources (load_observer_config K C.unmarshal_observer w).0
          constraint constraints w files))
