-- ===== src/Admission/Webhook/Denials.antt =====
-- When the controller denies a request (`ProcessRequest` of
-- admission-controller/pkg/controller/webhook.go).
use integrity_shield.Base.{
  Str, ◌≡◌, refl, sym, ap, true, false, false≢true, List, [], Option, none, some, Error, Outcome,
  returns, returns-injective, arith, ◌↔◌, inl, inr, Bool-cases,
}
use integrity_shield.External.Kube.{Kube, Client}
use integrity_shield.External.Sigstore.{Sigstore}
use integrity_shield.External.Labels.{Labels}
use integrity_shield.Server.Config.{RequestHandlerConfig}
use integrity_shield.Server.Shield.Request.{Request, State}
use integrity_shield.Server.Shield.Event.{Event}
use integrity_shield.Admission.Config.{
  AdmissionControllerConfig, check_if_detect_only, namespace_match, allow_match,
}
use integrity_shield.Admission.Status.{Profiles}
use integrity_shield.Admission.Webhook.{
  Response, denied, get_accumulated_result, apply_mode, respond, load_admission_controller_config,
  load_constraints, Profile, process_loop, process_profiles, process_configured, process_request,
}
use integrity_shield.Admission.Webhook.Accumulate.{any-nil, allowed-ne-denied, respond_iff}
use integrity_shield.Admission.Webhook.Rejects.{Rejected, process_loop-any}

module _ (K : Kube) (S : Sigstore K.Cluster) (L : Labels K.Cluster S.Object)
    (P : Profiles K S L.LabelSelector)
    (unmarshal : Str → Option (RequestHandlerConfig S) × Option Error)
    (group_version : Str → Str → Str) (events : Client K.Cluster Event) where
  module _ (unmarshal_config : Str → Option AdmissionControllerConfig × Option Error)
      (req : Request) (state : State K) where
    abbrev pub loaded : Option AdmissionControllerConfig × Option Error
    loaded = load_admission_controller_config K unmarshal_config state.cluster

    abbrev pub processed : Outcome (Response × State K)
    processed = process_request K S L P unmarshal group_version events unmarshal_config req state

    abbrev pub profiles : List (Profile K S L P)
    profiles = (load_constraints K S L P state.cluster).0

    pub process_request_loaded :
        (config : AdmissionControllerConfig)
        → loaded ≡ (some config, none)
        → processed
          ≡ returns (process_configured K S L P unmarshal group_version events req config state)
    unfolding process_request
    process_request_loaded config e = ground arith

    load_constraints_no_error : (load_constraints K S L P state.cluster).1 ≡ none
    unfolding load_constraints
    load_constraints_no_error = ground arith

    pub process_profiles_lem :
        (config : AdmissionControllerConfig)
        → (process_profiles K S L P unmarshal group_version events req config state).0
          ≡ respond (
              apply_mode (check_if_detect_only config.mode) (
                get_accumulated_result
                  (process_loop K S L P unmarshal group_version events req profiles [] state).0))
    unfolding process_profiles
    process_profiles_lem config = rw (load_constraints_no_error, process_profiles)

    process_profiles_iff :
        (config : AdmissionControllerConfig)
        → ((m : Str) × ((process_profiles K S L P unmarshal group_version events req config state).0
              ≡ denied m))
          ↔ ((check_if_detect_only config.mode ≡ false)
              × Rejected K S L P unmarshal group_version events req profiles state)
    process_profiles_iff config =
        let results =
          (process_loop K S L P unmarshal group_version events req profiles [] state).0 in
        let answer = respond_iff (check_if_detect_only config.mode) results in
        let found = process_loop-any K S L P unmarshal group_version events req profiles [] state in
        rw (process_profiles_lem config) (
          λ h.
              let (d, a) = answer.0 h in
              (d, elim (found.0 a) [ inl e ↦ absurd (any-nil e) | inr r ↦ r ]),
          λ w. answer.1 (w.0, found.1 (inr w.1)),
        )

    process_configured_iff :
        (config : AdmissionControllerConfig)
        → ((m : Str) × ((process_configured K S L P unmarshal group_version events req config
                state).0
              ≡ denied m))
          ↔ ((namespace_match S config.in_scope_namespace_selector req.namespace ≡ true)
              × (allow_match S config.allow req.kind ≡ false)
              × ((m : Str) × ((process_profiles K S L P unmarshal group_version events req config
                      state).0
                    ≡ denied m)))
    unfolding process_configured
    process_configured_iff config =
        elim (Bool-cases (namespace_match S config.in_scope_namespace_selector req.namespace)) [
          | inr out ↦
              rw (out, process_configured)
                (λ w. absurd (allowed-ne-denied w.1), λ w. absurd (false≢true w.0))
          | inl in_scope ↦ elim (Bool-cases (allow_match S config.allow req.kind)) [
            | inl ok_kind ↦
                rw (in_scope, process_configured)
                  (rw (ok_kind, process_configured)
                    (λ w. absurd (allowed-ne-denied w.1), λ w. absurd (false≢true (sym w.1))))
            | inr other_kind ↦
                rw (in_scope, process_configured)
                  (rw (other_kind, process_configured) (λ w. (refl, refl, w), λ w. w.2))
          ]
        ]

    -- With a configuration that loads, a request is denied exactly when its namespace is in scope,
    -- its kind is not allowed, the mode is not detection, and a profile of the cluster rejects it.
    pub process_request_iff :
        (config : AdmissionControllerConfig)
        → load_admission_controller_config K unmarshal_config state.cluster ≡ (some config, none)
        → ((m : Str) × (s : State K) × (process_request K S L P unmarshal group_version events
                unmarshal_config req state
              ≡ returns (denied m, s)))
          ↔ ((namespace_match S config.in_scope_namespace_selector req.namespace ≡ true)
              × (allow_match S config.allow req.kind ≡ false)
              × (check_if_detect_only config.mode ≡ false)
              × Rejected K S L P unmarshal group_version events req
                  (load_constraints K S L P state.cluster).0
                  state)
    process_request_iff config e =
        let configured = process_configured_iff config in
        let through = process_profiles_iff config in
        rw (process_request_loaded config e) (
          λ w.
              let (n, k, d) =
                configured.0 (w.0, ap (λ (r : Response × State K). r.0) (returns-injective w.2)) in
              let (mode, r) = through.0 d in (n, k, mode, r),
          λ w.
              let (m, d) = configured.1 (w.0, w.1, through.1 (w.2, w.3)) in
              (
                m,
                (process_configured K S L P unmarshal group_version events req config state).1,
                λ i. returns (
                  d i,
                  (process_configured K S L P unmarshal group_version events req config state).1,
                ),
              ),
        )
