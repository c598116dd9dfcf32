-- ===== src/Server/Shield/Handler/Unchanged.antt =====
-- What a request that is allowed leaves unchanged (`RequestHandler` of
-- integrity-shield-server/pkg/shield/request_handler.go).
use integrity_shield.Base.{Str, bytes, ◌≡◌, refl, true, Option, Error, arith, ap, inl, inr}
use integrity_shield.External.Kube.{Kube, Client}
use integrity_shield.External.Sigstore.{Sigstore}
use integrity_shield.Server.Parameter.{ParameterObject}
use integrity_shield.Server.Config.{RequestHandlerConfig, setup_logger}
use integrity_shield.Server.Shield.Request.{Request, ResultFromRequestHandler, State}
use integrity_shield.Server.Shield.VerifyOption.{set_verify_option}
use integrity_shield.Server.Shield.Event.{Event}
use integrity_shield.Server.Shield.Event.Records.{create_or_update_event_allowed}
use integrity_shield.Server.Shield.Handler.{
  answer, annotation_type, verification_answer, with_event, apply_rules, handle_resource,
  config_or_empty, request_handler,
}
use integrity_shield.Server.Shield.Handler.Reasons.{verification}
use integrity_shield.Server.Shield.Handler.Rules.{ruled}
use integrity_shield.Server.Shield.Handler.Admits.{request_handler_loaded, request_handler_cases}

module _ (K : Kube) (S : Sigstore K.Cluster)
    (unmarshal : Str → Option (RequestHandlerConfig S) × Option Error)
    (group_version : Str → Str → Str) (events : Client K.Cluster Event) where
  open S use {Object, DiffResult, unmarshal_object, reference_match, reference_list_match}

  with_event-result :
      (req : Request) (config : RequestHandlerConfig S) (r : ResultFromRequestHandler)
      (param : ParameterObject S) (state : State K)
      → (with_event K S unmarshal group_version events req config r param state).result ≡ r
  unfolding with_event
  with_event-result req config r param state = refl

  with_event-cluster :
      (req : Request) (config : RequestHandlerConfig S) (r : ResultFromRequestHandler)
      (param : ParameterObject S) (state : State K)
      → r.allow ≡ true
      → (with_event K S unmarshal group_version events req config r param state).state.cluster
        ≡ state.cluster
  unfolding with_event
  with_event-cluster req config r param state h = ground (
    arith,
    create_or_update_event_allowed K group_version events req r param.constraint_name state.cluster
        h,
  )

  apply_rules-cluster :
      (req : Request) (param : ParameterObject S) (config : RequestHandlerConfig S)
      (resource : Object) (state : State K)
      → (ruled K S unmarshal group_version events req param config resource state).result.allow
        ≡ true
      → (ruled K S unmarshal group_version events req param config resource state).state.cluster
        ≡ state.cluster
  unfolding apply_rules
  apply_rules-cluster req param config resource state h =
      let (param', files') =
        set_verify_option K S param config (annotation_type (S.annotations resource)) state.cluster
          state.files in
      ground (
        arith,
        with_event-cluster req config (answer true (bytes "SkipUsers rule matched.")) param state,
        with_event-cluster req config
            (answer true (bytes "InScopeObjects rule did not match. Out of scope of verification."))
            param state,
        with_event-cluster req config (answer true (bytes "SkipObjects rule matched.")) param state,
        with_event-cluster req config
            (verification_answer K S
              (verification K S param config resource state.cluster state.files))
            param' (record state { files = files' }),
        with_event-result req config
            (verification_answer K S
              (verification K S param config resource state.cluster state.files))
            param' (record state { files = files' }),
      )

  handle_resource-cluster :
      (req : Request) (param : ParameterObject S) (config : RequestHandlerConfig S)
      (resource : Object) (state : State K)
      → (handle_resource K S unmarshal group_version events req param config resource
          state).result.allow
        ≡ true
      → (handle_resource K S unmarshal group_version events req param config resource
          state).state.cluster
        ≡ state.cluster
  unfolding handle_resource
  handle_resource-cluster req param config resource state h = ground (
    arith,
    apply_rules-cluster req param config resource
        (record state { logger = setup_logger config.log state.logger }),
  )

  -- A request that is allowed leaves the cluster as it was.
  pub request_handler-cluster :
      (req : Request) (param : ParameterObject S) (state : State K)
      → (request_handler K S unmarshal group_version events req param state).result.allow ≡ true
      → (request_handler K S unmarshal group_version events req param state).state.cluster
        ≡ state.cluster
  request_handler-cluster req param state h =
      elim (request_handler_cases K S unmarshal group_version events req param state) [
        | inl (_, same) ↦ ap (λ (t : State K). t.cluster) same
        | inr (resource, config, p, q) ↦
            rw
              (request_handler_loaded K S unmarshal group_version events req param state resource
                config p q)
              (handle_resource-cluster req param (config_or_empty K S config) resource state (
                rw
                  (request_handler_loaded K S unmarshal group_version events req param state
                    resource config p q)
                  at h))
      ]
