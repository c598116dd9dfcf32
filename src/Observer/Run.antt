-- ===== src/Observer/Run.antt =====
-- `Run` of observer/pkg/observer/observer.go.
pub mod Summary
use integrity_shield.Base.{
  ℕ, Str, Bool, true, false, List, [], ◌∷◌, ◌++◌, is_empty, not, length, if◌then◌else◌, Option,
  none, some, Error, Outcome, returns, panics,
}
use integrity_shield.External.Kube.{Kube, Client}
use integrity_shield.External.Sigstore.{Sigstore, VerifyResourceResult}
use integrity_shield.External.Labels.{Labels}
use integrity_shield.External.Dynamic.{Dynamic}
use integrity_shield.Server.Config.{RequestHandlerConfig}
use integrity_shield.Server.Shield.Request.{load_request_handler_config}
use integrity_shield.Observer.Pattern.{check_if_inscope_constraint}
use integrity_shield.Observer.Constraint.{
  GroupResource, GroupResourceWithTargetNs, ConstraintSpec, load_constraints,
  get_possible_protected_gvks,
}
use integrity_shield.Observer.Resources.{get_all_loop}
use integrity_shield.Observer.Verify.{VerifyResultDetail, observe_resources}
use integrity_shield.Observer.Export.{
  VerifyResult, VerifyResourceStatusSpec, VerifyResourceStatus, ConfigMap, ObserverConfig,
  ConstraintResult, load_observer_config, export_verify_result, export_result_detail,
}

module _ (K : Kube) (S : Sigstore K.Cluster) (L : Labels K.Cluster S.Object)
    (D : Dynamic K.Cluster S.Object) where
  open K use {Cluster, Files}
  open S use {Object, DiffResult}

  -- What `Run` takes from other packages: the codecs, the clients of the resources that it writes,
  -- and the time, printed, which is taken not to pass during a run.
  pub record Codecs : Type 0 where
    pub spec_of : Object → ConstraintSpec K S L D
    pub unmarshal : Str → Option (RequestHandlerConfig S) × Option Error
    pub unmarshal_observer : Str → Option ObserverConfig × Option Error
    pub marshal : List (ConstraintResult K S D) → Str
    pub new_status_client : Option Error
    pub statuses : Client Cluster VerifyResourceStatus
    pub config_maps : Client Cluster ConfigMap
    pub time : Str

  abbrev pub Detail : Type 0
  Detail = VerifyResultDetail K S D

  unfoldable pub violation_result : Detail → VerifyResult
  violation_result res = record {
    namespace = res.namespace;
    name = res.name;
    kind = res.kind;
    api_group = res.api_group;
    api_version = res.api_version;
    result = res.message;
    signer = [];
    signed_time = none;
    sig_ref = [];
  }

  unfoldable pub verified_result : Detail → VerifyResourceResult DiffResult → VerifyResult
  unfolding violation_result
  verified_result res r = record (violation_result res) {
    signer = r.signer;
    signed_time = r.signed_time;
    sig_ref = r.sig_ref;
  }

  -- The loop over the results. It uses the result of each one that is no violation, which panics
  -- if it is nil.
  unfoldable pub summary_loop :
      List Detail
      → List VerifyResult
      → List VerifyResult
      → Outcome (List VerifyResult × List VerifyResult)
  unfolding violation_result verified_result
  summary_loop [] violations non_violations = returns (violations, non_violations)
  summary_loop (res ∷ results) violations non_violations =
      if res.violation
      then summary_loop results (violations ++ (violation_result res ∷ [])) non_violations
      else elim (res.verify_resource_result) [
        | none ↦ panics
        | some r ↦ summary_loop results violations (non_violations ++ (verified_result res r ∷ []))
      ]

  -- What the loop over the constraints does at one of them: it returns from `Run`, or goes on.
  pub data Observed : Type 0 where
    stopped : Observed
    observed : ConstraintResult K S D → Cluster → Files → Observed

  module _ (C : Codecs) where
    -- The end of the loop's body, with the results of the resources.
    unfoldable pub export_constraint :
        ObserverConfig
        → Str
        → List Detail
        → Cluster
        → Files
        → List VerifyResult × List VerifyResult
        → Observed
    export_constraint tcconfig constraint_name results w files (violations, non_violations) =
        let violated = not (is_empty violations) in
        let vrr : VerifyResourceStatusSpec = record {
          constraint_name = constraint_name;
          violation = violated;
          total_violations = length violations;
          violations = violations;
          non_violations = non_violations;
          observation_time = C.time;
        } in
        let ignored = check_if_inscope_constraint constraint_name tcconfig.target_constraints in
        observed
          (record {
            constraint_name = constraint_name;
            violation = violated;
            total_violations = length violations;
            results = results;
          })
          (export_verify_result K C.new_status_client C.statuses vrr ignored violated w).1 files

    -- The body of the loop over the constraints. The use of a nil configuration panics.
    unfoldable pub observe_constraint :
        List GroupResource
        → Option (RequestHandlerConfig S)
        → ObserverConfig
        → ConstraintSpec K S L D
        → Cluster
        → Files
        → Outcome Observed
    unfolding summary_loop export_constraint
    observe_constraint api_resources rhconfig tcconfig constraint w files =
        elim (get_possible_protected_gvks K S L D api_resources constraint.match w) [
          | none ↦ returns stopped
          | some gvks ↦ elim (get_all_loop K S D gvks w) [
            | panics ↦ panics
            | returns resources ↦ elim rhconfig [
              | none ↦ panics
              | some config ↦
                  let (results, files') =
                    observe_resources K S D C.time resources constraint.parameters.image_ref
                      (constraint.parameters.verify_resource_option.ignore_fields
                        ++ config.request_filter_profile.ignore_fields)
                      constraint.parameters.key_configs w files in
                  elim (summary_loop results [] []) [
                    | panics ↦ panics
                    | returns lists ↦ returns (
                        export_constraint tcconfig constraint.parameters.constraint_name results w
                          files' lists)
                  ]
            ]
          ]
        ]

    -- The loop over the constraints, and the export behind it.
    unfoldable pub run_loop :
        List GroupResource
        → Option (RequestHandlerConfig S)
        → ObserverConfig
        → List (ConstraintSpec K S L D)
        → List (ConstraintResult K S D)
        → Cluster
        → Files
        → Outcome (Cluster × Files)
    unfolding observe_constraint
    run_loop api_resources rhconfig tcconfig [] results w files =
        returns ((export_result_detail K S D C.marshal C.config_maps results tcconfig w).1, files)
    run_loop api_resources rhconfig tcconfig (constraint ∷ constraints) results w files =
        elim (observe_constraint api_resources rhconfig tcconfig constraint w files) [
          | panics ↦ panics
          | returns stopped ↦ returns (w, files)
          | returns (observed r w' files') ↦
              run_loop api_resources rhconfig tcconfig constraints (results ++ (r ∷ [])) w' files'
        ]

    -- The errors of the three loads are logged only.
    unfoldable pub run : List GroupResource → Cluster → Files → Outcome (Cluster × Files)
    unfolding run_loop
    run api_resources w files =
        let rhconfig = (load_request_handler_config K S C.unmarshal w).0 in
        let tcconfig = (load_observer_config K C.unmarshal_observer w).0 in
        let constraints = (load_constraints K S L D C.spec_of w).0 in
        run_loop api_resources rhconfig tcconfig constraints [] w files
