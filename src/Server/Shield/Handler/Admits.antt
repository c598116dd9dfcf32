-- ===== src/Server/Shield/Handler/Admits.antt =====
-- When a request is allowed (`RequestHandler` of
-- integrity-shield-server/pkg/shield/request_handler.go).
use integrity_shield.Base.{
  Str, ◌≡◌, true, false, false≢true, Option, none, ok, Error, arith, sym, ◌∙◌, ◌⊎◌, inl, inr, ◌↔◌,
  Option-cases, Result-cases,
}
use integrity_shield.External.Kube.{Kube, Client}
use integrity_shield.External.Sigstore.{Sigstore}
use integrity_shield.Server.Parameter.{ParameterObject}
use integrity_shield.Server.Config.{RequestHandlerConfig, setup_logger}
use integrity_shield.Server.Shield.Request.{Request, State, load_request_handler_config}
use integrity_shield.Server.Shield.Event.{Event}
use integrity_shield.Server.Shield.Handler.{
  Handled, handle_resource, config_or_empty, request_handler,
}
use integrity_shield.Server.Shield.Handler.Reasons.{Admitted, no_mutation, by_rules}
use integrity_shield.Server.Shield.Handler.Rules.{
  apply_rules-Passable, Passable-apply_rules, handle_resource_allow,
}

module _ (K : Kube) (S : Sigstore K.Cluster)
    (unmarshal : Str → Option (RequestHandlerConfig S) × Option Error)
    (group_version : Str → Str → Str) (events : Client K.Cluster Event) where
  open S use {Object, DiffResult, unmarshal_object, reference_match, reference_list_match}

  abbrev pub loaded : State K → Option (RequestHandlerConfig S) × Option Error
  loaded state = load_request_handler_config K S unmarshal state.cluster

  abbrev pub handled : Request → ParameterObject S → State K → Handled K S
  handled = request_handler K S unmarshal group_version events

  pub request_handler_loaded :
      (req : Request) (param : ParameterObject S) (state : State K) (resource : Object)
      (config : Option (RequestHandlerConfig S))
      → unmarshal_object req.object_raw ≡ ok resource
      → loaded state ≡ (config, none)
      → handled req param state
        ≡ handle_resource K S unmarshal group_version events req param
            (config_or_empty K S config)
            resource
            state
  unfolding request_handler
  request_handler_loaded req param state resource config p q = ground arith

  -- What a request comes to: a denial that changes nothing, or the handling of the object that was
  -- decoded, with the configuration that was loaded.
  pub request_handler_cases :
      (req : Request) (param : ParameterObject S) (state : State K)
      → (((handled req param state).result.allow ≡ false)
          × ((handled req param state).state ≡ state))
        ⊎ ((resource : Object) × (config : Option (RequestHandlerConfig S)) × (unmarshal_object
                req.object_raw
              ≡ ok resource)
            × (loaded state ≡ (config, none)))
  unfolding request_handler
  request_handler_cases req param state = elim (Result-cases (unmarshal_object req.object_raw)) [
    | inr (e, p) ↦ inl (rw (p, request_handler), rw (p, request_handler))
    | inl (resource, p) ↦ elim (Option-cases (loaded state).1) [
      | inr (e, q) ↦ inl (
        rw (p, request_handler) (rw (q, request_handler)),
        rw (p, request_handler) (rw (q, request_handler)),
      )
      | inl q ↦ inr (resource, (loaded state).0, p, λ i. ((loaded state).0, q i))
    ]
  ]

  -- A request is allowed exactly when it is an update that mutates nothing, or when, after an
  -- update was found to mutate, a rule skips it or puts it out of scope, or the verification
  -- succeeds with the resource not protected or signed. In all other cases, an object that does
  -- not parse and a configuration that does not load among them, it is denied.
  pub request_handler_iff :
      (req : Request) (param : ParameterObject S) (state : State K)
      → ((request_handler K S unmarshal group_version events req param state).result.allow ≡ true)
        ↔ Admitted K S unmarshal req param state
  request_handler_iff req param state = (
    λ h. elim (request_handler_cases req param state) [
      | inl (denied, _) ↦ absurd (false≢true (sym denied ∙ h))
      | inr (resource, config, p, q) ↦
          elim ((handle_resource_allow K S unmarshal group_version events req param
              (config_or_empty K S config) resource state).0
            (rw (request_handler_loaded req param state resource config p q) at h)) [
              | inl (u, m) ↦ no_mutation resource config p q u m
              | inr (on, a) ↦
                  by_rules resource config p q on (
                    apply_rules-Passable K S unmarshal group_version events req param _ resource _
                      a)
            ]
    ],
    λ a. elim a [
      | no_mutation resource config p q u m ↦
          rw (request_handler_loaded req param state resource config p q) (
            (handle_resource_allow K S unmarshal group_version events req param
                (config_or_empty K S config) resource state).1
              (inl (u, m)))
      | by_rules resource config p q on passable ↦
          rw (request_handler_loaded req param state resource config p q) (
            (handle_resource_allow K S unmarshal group_version events req param
                (config_or_empty K S config) resource state).1
              (inr (
                on,
                Passable-apply_rules K S unmarshal group_version events req param _ resource
                    (record state {
                      logger = setup_logger (config_or_empty K S config).log state.logger;
                    })
                    passable,
              )))
    ],
  )
