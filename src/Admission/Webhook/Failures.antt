-- ===== src/Admission/Webhook/Failures.antt =====
-- When the controller panics, and when it lets a request pass that it cannot judge
-- (`ProcessRequest` of admission-controller/pkg/controller/webhook.go).
use integrity_shield.Base.{
  Str, join, ◌≡◌, refl, ◌∙◌, Bool, true, false, [], Option, none, some, err, Error, returns, panics,
  arith, ◌↔◌,
}
use integrity_shield.External.Kube.{Kube, Client}
use integrity_shield.External.Sigstore.{Sigstore}
use integrity_shield.External.Labels.{Labels}
use integrity_shield.Server.Config.{RequestHandlerConfig}
use integrity_shield.Server.Shield.Request.{Request, State}
use integrity_shield.Server.Shield.Event.{Event}
use integrity_shield.Admission.Config.{
  AdmissionControllerConfig, check_if_detect_only, namespace_match, allow_match,
}
use integrity_shield.Admission.Status.{Profiles}
use integrity_shield.Admission.Webhook.{
  allowed, get_accumulated_result, apply_mode, respond, load_admission_controller_config,
  load_constraints, process_loop, process_profiles, process_configured, process_request,
}
use integrity_shield.Admission.Webhook.Denials.{
  profiles, process_request_loaded, process_profiles_lem,
}

module _ (K : Kube) (S : Sigstore K.Cluster) (L : Labels K.Cluster S.Object)
    (P : Profiles K S L.LabelSelector)
    (unmarshal : Str → Option (RequestHandlerConfig S) × Option Error)
    (group_version : Str → Str → Str) (events : Client K.Cluster Event) where
  module _ (unmarshal_config : Str → Option AdmissionControllerConfig × Option Error)
      (req : Request) (state : State K) where
    -- A request panics exactly when its configuration loads as nothing, with no error.
    process_request-panics_iff :
        (process_request K S L P unmarshal group_version events unmarshal_config req state ≡ panics)
        ↔ (load_admission_controller_config K unmarshal_config state.cluster ≡ (none, none))
    unfolding process_request
    process_request-panics_iff = ground arith

    configured_in_scope :
        (config : AdmissionControllerConfig)
        → namespace_match S config.in_scope_namespace_selector req.namespace ≡ true
        → allow_match S config.allow req.kind ≡ false
        → (process_configured K S L P unmarshal group_version events req config state).0
          ≡ (process_profiles K S L P unmarshal group_version events req config state).0
    unfolding process_configured
    configured_in_scope config in_scope other_kind = ground arith

    respond_none :
        (d : Bool)
        → respond (
            apply_mode d (
              get_accumulated_result
                (process_loop K S L P unmarshal group_version events req [] [] state).0))
          ≡ allowed []
    unfolding process_loop respond apply_mode get_accumulated_result join
    respond_none true = refl
    respond_none false = refl

    -- Without a configuration of the client, every request panics.
    pub process_request_unconfigured :
        {e : Error}
        → K.kube_config ≡ some e
        → process_request K S L P unmarshal group_version events unmarshal_config req state ≡ panics
    process_request_unconfigured h =
        process_request-panics_iff.1 (unfold load_admission_controller_config in ground arith)

    load_constraints_unlisted :
        {e : Error}
        → P.list state.cluster ≡ err e
        → profiles K S L P unmarshal group_version events unmarshal_config req state ≡ []
    unfolding load_constraints
    load_constraints_unlisted h = ground arith

    configured_unlisted :
        (config : AdmissionControllerConfig) {e : Error}
        → namespace_match S config.in_scope_namespace_selector req.namespace ≡ true
        → allow_match S config.allow req.kind ≡ false
        → P.list state.cluster ≡ err e
        → (process_configured K S L P unmarshal group_version events req config state).0
          ≡ allowed []
    configured_unlisted config in_scope other_kind unlisted =
        configured_in_scope config in_scope other_kind
        ∙ process_profiles_lem K S L P unmarshal group_version events unmarshal_config req state
            config
        ∙ rw (load_constraints_unlisted unlisted) (respond_none (check_if_detect_only config.mode))

    -- With a configuration that loads, a request whose namespace is in scope and whose kind is not
    -- allowed is let through, with an empty message, where the profiles cannot be listed.
    pub process_request_unlisted :
        (config : AdmissionControllerConfig) {e : Error}
        → load_admission_controller_config K unmarshal_config state.cluster ≡ (some config, none)
        → namespace_match S config.in_scope_namespace_selector req.namespace ≡ true
        → allow_match S config.allow req.kind ≡ false
        → P.list state.cluster ≡ err e
        → (s : State K) × (process_request K S L P unmarshal group_version events unmarshal_config
              req state
            ≡ returns (allowed [], s))
    process_request_unlisted config loads in_scope other_kind unlisted =
        let configured =
          process_configured K S L P unmarshal group_version events req config state in
        (
          configured.1,
          process_request_loaded K S L P unmarshal group_version events unmarshal_config req state
                config loads
              ∙ (λ i.
                  returns
                    (configured_unlisted config in_scope other_kind unlisted i, configured.1)),
        )
