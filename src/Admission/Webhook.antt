-- ===== src/Admission/Webhook.antt =====
-- `ProcessRequest` of admission-controller/pkg/controller/webhook.go, which main.go of the
-- controller calls for each request.
pub mod Accumulate
pub mod Rejects
pub mod Denials
pub mod Failures
use integrity_shield.Base.{
  ℕ, Str, bytes, join, Bool, true, false, List, [], ◌∷◌, ◌++◌, is_empty, if◌then◌else◌, ◌&&◌, not,
  Option, none, some, Result, ok, err, Error, Outcome, returns, panics,
}
use integrity_shield.External.Kube.{Kube, Client}
use integrity_shield.External.Sigstore.{Sigstore}
use integrity_shield.External.Labels.{Labels}
use integrity_shield.Server.Config.{RequestHandlerConfig}
use integrity_shield.Server.Parameter.{ParameterObject}
use integrity_shield.Server.Shield.Request.{
  Request, ResultFromRequestHandler, State, or_default, config_text, decoded,
  default_config_key_in_config_map,
}
use integrity_shield.Server.Shield.Event.{Event}
use integrity_shield.Server.Shield.Handler.{Handled, request_handler}
use integrity_shield.Admission.Config.{
  AdmissionControllerConfig, check_if_detect_only, namespace_match, allow_match,
}
use integrity_shield.Admission.Profile.{ManifestIntegrityProfile, ManifestIntegrityProfileSpec}
use integrity_shield.Admission.Match.{match_check}
use integrity_shield.Admission.Status.{Profiles, update_constraints}

-- `admission.Allowed` and `admission.Denied`, by the reason that they are given.
pub data Response : Type 0 where
  allowed : Str → Response
  denied : Str → Response

pub record AccumulatedResult : Type 0 where
  pub allow : Bool
  pub message : Str

-- `"[" + result.Profile + "]" + result.Message`
unfoldable pub profile_message : ResultFromRequestHandler → Str
profile_message r = bytes "[" ++ (r.profile ++ (bytes "]" ++ r.message))

-- The loop that collects the messages of the denials and of the others.
unfoldable pub accumulate_loop :
    List ResultFromRequestHandler → List Str → List Str → List Str × List Str
unfolding profile_message
accumulate_loop [] deny_messages allow_messages = (deny_messages, allow_messages)
accumulate_loop (r ∷ results) deny_messages allow_messages =
    accumulate_loop results
      (if not r.allow then deny_messages ++ (profile_message r ∷ []) else deny_messages)
      (if not r.allow then allow_messages else allow_messages ++ (profile_message r ∷ []))

unfoldable pub get_accumulated_result : List ResultFromRequestHandler → AccumulatedResult
unfolding accumulate_loop
get_accumulated_result results =
    let (deny_messages, allow_messages) = accumulate_loop results [] [] in
    if not (is_empty deny_messages)
    then record { allow = false; message = join deny_messages (bytes ";") }
    else record { allow = true; message = join allow_messages (bytes ";") }

-- The mode check: a denial is allowed in detection mode.
unfoldable pub apply_mode : Bool → AccumulatedResult → AccumulatedResult
apply_mode is_detect_mode ar =
    if not ar.allow && is_detect_mode
    then record { allow = true; message = bytes "allowed by detection mode: " ++ ar.message }
    else ar

unfoldable pub respond : AccumulatedResult → Response
respond ar = if ar.allow then allowed ar.message else denied ar.message

module _ (K : Kube) (unmarshal_config : Str → Option AdmissionControllerConfig × Option Error) where
  open K use {Cluster, getenv, kube_config, new_for_config}

  -- A configuration that is `none` is a nil pointer.
  unfoldable pub load_admission_controller_config :
      Cluster → Option AdmissionControllerConfig × Option Error
  unfolding or_default config_text decoded
  load_admission_controller_config w =
      let config_name =
        or_default (getenv (bytes "CONTROLLER_CONFIG_NAME"))
          (bytes "admission-controller-config") in
      let config_key =
        or_default (getenv (bytes "CONTROLLER_CONFIG_KEY")) default_config_key_in_config_map in
      elim kube_config [
        | some _ ↦ (none, none)
        | none ↦ elim new_for_config [
          | some _ ↦ (none, none)
          | none ↦ elim (config_text K w config_name config_key) [
            | err e ↦ (none, some e)
            | ok text ↦
                decoded K (bytes "*config.AdmissionControllerConfig") (unmarshal_config text)
          ]
        ]
      ]

module _ (K : Kube) (S : Sigstore K.Cluster) (L : Labels K.Cluster S.Object)
    (P : Profiles K S L.LabelSelector) where
  abbrev pub Profile : Type 0
  Profile = ManifestIntegrityProfile S L.LabelSelector

  -- Every error on the way gives an empty list and no error.
  unfoldable pub load_constraints : K.Cluster → List Profile × Option Error
  load_constraints w = elim (K.kube_config) [
    | some _ ↦ ([], none)
    | none ↦ elim (P.new_for_config) [
      | some _ ↦ ([], none)
      | none ↦ elim (P.list w) [ err _ ↦ ([], none) | ok items ↦ (items, none) ]
    ]
  ]

  unfoldable pub get_parameters_from_constraint :
      ManifestIntegrityProfileSpec S L.LabelSelector → ParameterObject S
  get_parameters_from_constraint constraint = constraint.parameters

  module _ (unmarshal : Str → Option (RequestHandlerConfig S) × Option Error)
      (group_version : Str → Str → Str) (events : Client K.Cluster Event) where
    -- The loop over the profiles. A profile's parameters are copied for each request.
    unfoldable pub process_loop :
        Request
        → List Profile
        → List ResultFromRequestHandler
        → State K
        → List ResultFromRequestHandler × State K
    unfolding get_parameters_from_constraint
    process_loop req [] results state = (results, state)
    process_loop req (constraint ∷ rest) results state =
        elim (match_check K S L state.cluster req constraint.spec.match) [
          | false ↦
              process_loop req rest
                (results
                  ++ (record {
                    allow = true;
                    message = bytes "not protected";
                    profile = constraint.name;
                  }
                      ∷ []))
                state
          | true ↦
              let h =
                request_handler K S unmarshal group_version events req
                  (get_parameters_from_constraint constraint.spec) state in
              process_loop req rest
                (results ++ (record (h.result) { profile = constraint.name } ∷ [])) h.state
        ]

    -- What follows the two checks of the scope.
    unfoldable pub process_profiles :
        Request → AdmissionControllerConfig → State K → Response × State K
    process_profiles req config state =
        let (constraints, e?) = load_constraints state.cluster in
        elim e? [
          | some _ ↦ (allowed (bytes "error but allow for development"), state)
          | none ↦
              let (results, state') = process_loop req constraints [] state in
              let is_detect_mode = check_if_detect_only config.mode in
              (
                respond (apply_mode is_detect_mode (get_accumulated_result results)),
                if config.side_effect.update_mip_status_for_denied_request
                    then record state' {
                      cluster =
                          update_constraints K S L.LabelSelector P is_detect_mode req results
                            state'.cluster;
                    }
                    else state',
              )
        ]

    unfoldable pub process_configured :
        Request → AdmissionControllerConfig → State K → Response × State K
    process_configured req config state =
        if not (namespace_match S config.in_scope_namespace_selector req.namespace)
        then (allowed (bytes "this namespace is out of scope"), state)
        else if allow_match S config.allow req.kind
        then (allowed (bytes "this kind is out of scope"), state)
        else process_profiles req config state

    module _ (unmarshal_config : Str → Option AdmissionControllerConfig × Option Error) where
      -- The use of a nil configuration panics.
      unfoldable pub process_request : Request → State K → Outcome (Response × State K)
      unfolding process_configured process_profiles process_loop load_constraints
      process_request req state =
          let (config, e?) = load_admission_controller_config K unmarshal_config state.cluster in
          elim e? [
            | some _ ↦ returns (allowed (bytes "error but allow for development"), state)
            | none ↦ elim config [
              | none ↦ panics
              | some c ↦ returns (process_configured req c state)
            ]
          ]
