-- ===== src/Server/Endpoint/Decisions.antt =====
-- What `requestHandler` of integrity-shield-server/main.go answers.
use integrity_shield.Base.{
  Str, bytes, List, [], ◌∷◌, Option, Error, Outcome, returns, panics, ◌≡◌, ◌≢◌, ◌↔◌, ◌⊎◌, inl, inr,
  refl, sym, ◌∙◌,
}
use integrity_shield.External.Kube.{Kube, Client}
use integrity_shield.External.Sigstore.{Sigstore}
use integrity_shield.Server.Parameter.{ParameterObject}
use integrity_shield.Server.Config.{RequestHandlerConfig}
use integrity_shield.Server.Shield.Request.{Request, State}
use integrity_shield.Server.Shield.Event.{Event}
use integrity_shield.Server.Endpoint.{
  HttpRequest, Call, write, http_error, status_internal_server_error, Codec, Decoded, replies,
  decoded, input_value, Reply, go_on, decide, decide_input, request_endpoint,
}
use integrity_shield.Server.Endpoint.Inputs.{
  Decodes, Misshapen, Refused, given_value, given_panic, given_cases, endpoint_input,
  endpoint-Posts,
}
use integrity_shield.Server.Endpoint.Replies.{
  error-ne-write, Written, decide-Written, of_decide, decide-ne-panics,
}

module _ (K : Kube) (S : Sigstore K.Cluster)
    (unmarshal : Str → Option (RequestHandlerConfig S) × Option Error)
    (group_version : Str → Str → Str) (events : Client K.Cluster Event)
    (J : Codec (ParameterObject S)) (r : HttpRequest) (state : State K) where
  abbrev deciding : Request → ParameterObject S → Reply K S unmarshal group_version events J
  deciding = decide K S unmarshal group_version events J state

  abbrev endpoint : Reply K S unmarshal group_version events J
  endpoint = request_endpoint K S unmarshal group_version events J r state

  abbrev input : List (Str × J.Interface) → Reply K S unmarshal group_version events J
  input = decide_input K S unmarshal group_version events J state

  abbrev IsRefused : Type 0
  IsRefused = Refused K S unmarshal group_version events J r state

  module _ (m : List (Str × J.Interface)) where
    abbrev request_value : Outcome (Decoded Request)
    request_value =
        input_value J J.unmarshal_request (bytes "request") (bytes "*admission.Request") m

    abbrev parameters_value : Outcome (Decoded (ParameterObject S))
    parameters_value =
        input_value J J.unmarshal_parameters (bytes "parameters") (bytes "*config.ParameterObject")
          m

    input_decided :
        {request : Request} {parameters : ParameterObject S}
        → request_value ≡ returns (decoded request)
        → parameters_value ≡ returns (decoded parameters)
        → input m ≡ deciding request parameters
    unfolding decide_input go_on
    input_decided p q = rw p (rw q refl)

    input_panics : request_value ≡ panics → input m ≡ panics
    unfolding decide_input go_on
    input_panics p = rw p refl

    input_panics_later :
        {request : Request}
        → request_value ≡ returns (decoded request)
        → parameters_value ≡ panics
        → input m ≡ panics
    unfolding decide_input go_on
    input_panics_later p q = rw p (rw q refl)

    input_refused :
        {message : Str}
        → request_value ≡ returns (replies message)
        → input m ≡ returns (http_error message status_internal_server_error ∷ [], state)
    unfolding decide_input go_on
    input_refused p = rw p refl

    input_refused_later :
        {request : Request} {message : Str}
        → request_value ≡ returns (decoded request)
        → parameters_value ≡ returns (replies message)
        → input m ≡ returns (http_error message status_internal_server_error ∷ [], state)
    unfolding decide_input go_on
    input_refused_later p q = rw p (rw q refl)

  -- A request is refused with the state as it was, or panics, or is decided.
  endpoint_cases :
      IsRefused
      ⊎ ((Misshapen K S unmarshal group_version events J r × (endpoint ≡ panics))
          ⊎ ((request : Request) × (parameters : ParameterObject S) × Decodes K S unmarshal
                group_version events J r request parameters
              × (endpoint ≡ deciding request parameters)))
  endpoint_cases = elim (endpoint-Posts K S unmarshal group_version events J r state) [
    | inl refused ↦ inl refused
    | inr (m, posts) ↦
        let start = endpoint_input K S unmarshal group_version events J r state posts in
        elim (given_cases J J.unmarshal_request (bytes "request") (bytes "*admission.Request") m) [
          | inr (inl u) ↦
              inr (inl ((m, posts, inl u), start ∙ input_panics m (given_panic J _ _ _ m u)))
          | inr (inr (message, p)) ↦ inl (
            _,
            λ _ e. error-ne-write K S unmarshal group_version events J state e,
            start ∙ input_refused m p,
          )
          | inl (request, g) ↦
              let p = given_value J _ _ (bytes "*admission.Request") m g in
              elim (given_cases J J.unmarshal_parameters (bytes "parameters")
                (bytes "*config.ParameterObject") m) [
                  | inr (inl u) ↦ inr (
                      inl (
                        (m, posts, inr (request, g, u)),
                        start ∙ input_panics_later m p (given_panic J _ _ _ m u),
                      ))
                  | inr (inr (message, q)) ↦ inl (
                    _,
                    λ _ e. error-ne-write K S unmarshal group_version events J state e,
                    start ∙ input_refused_later m p q,
                  )
                  | inl (parameters, h) ↦ inr (
                      inr (
                        request,
                        parameters,
                        (m, posts, g, h),
                        start ∙ input_decided m p (given_value J _ _ _ m h),
                      ))
                ]
        ]
  ]

  endpoint-Decodes :
      {request : Request} {parameters : ParameterObject S}
      → Decodes K S unmarshal group_version events J r request parameters
      → endpoint ≡ deciding request parameters
  endpoint-Decodes (m, posts, g, h) =
      endpoint_input K S unmarshal group_version events J r state posts
      ∙ input_decided m (given_value J _ _ _ m g) (given_value J _ _ _ m h)

  refused-ne-written :
      {c : Call} {resp : Str} {state' : State K}
      → ((resp : Str) → c ≢ write resp)
      → endpoint ≡ returns (c ∷ [], state)
      → endpoint ≡ returns (write resp ∷ [], state')
      → ⊥
  refused-ne-written {c} {resp} h p q = h resp (call (sym p ∙ q) refl refl)
    where
      call :
          {d : Call} {p q : List Call × State K}
          → returns p ≡ returns q
          → p.0 ≡ c ∷ []
          → q.0 ≡ d ∷ []
          → c ≡ d
      call e f g = cc

  -- The endpoint writes `resp` and nothing else, and leaves `state'`, exactly where the input is a
  -- POST of JSON whose `request` and `parameters` are objects that convert, `resp` is the result
  -- of `RequestHandler` on them, the connection takes it, and `state'` is the state that
  -- `RequestHandler` leaves.
  pub request_endpoint_iff :
      (resp : Str) (state' : State K)
      → (request_endpoint K S unmarshal group_version events J r state
          ≡ returns (write resp ∷ [], state'))
        ↔ ((request : Request) × (parameters : ParameterObject S) × Decodes K S unmarshal
              group_version events J r request parameters
            × Written K S unmarshal group_version events J state request parameters resp state')
  request_endpoint_iff resp state' = (
    λ h. elim endpoint_cases [
      | inl (c, other, p) ↦ absurd (refused-ne-written other p h)
      | inr (inl (_, p)) ↦ absurd (panics-ne-returns (sym p ∙ h))
      | inr (inr (request, parameters, d, p)) ↦ (
        request,
        parameters,
        d,
        of_decide K S unmarshal group_version events J state request parameters (sym p ∙ h),
      )
    ],
    λ (request, parameters, d, written).
        endpoint-Decodes d
        ∙ decide-Written K S unmarshal group_version events J state request parameters written,
  )
    where
      panics-ne-returns : {x : List Call × State K} → panics ≡ returns x → ⊥
      panics-ne-returns p = cc

  -- The endpoint panics exactly where the input is a POST of JSON whose `request` is neither
  -- missing nor null nor an object, or whose `request` converts and whose `parameters` are neither
  -- missing nor null nor an object; the type assertions on the two are not checked.
  pub request_endpoint_panics_iff :
      (request_endpoint K S unmarshal group_version events J r state ≡ panics)
      ↔ Misshapen K S unmarshal group_version events J r
  request_endpoint_panics_iff = (
    λ h. elim endpoint_cases [
      | inl (c, _, p) ↦ absurd (returns-ne-panics (sym p ∙ h))
      | inr (inl (m, _)) ↦ m
      | inr (inr (request, parameters, _, p)) ↦ absurd (
          decide-ne-panics K S unmarshal group_version events J state request parameters
            (sym p ∙ h))
    ],
    λ x. misshapen x,
  )
    where
      returns-ne-panics : {x : List Call × State K} → returns x ≡ panics → ⊥
      returns-ne-panics p = cc

      misshapen : Misshapen K S unmarshal group_version events J r → endpoint ≡ panics
      misshapen (m, posts, inl u) =
          endpoint_input K S unmarshal group_version events J r state posts
          ∙ input_panics m (given_panic J _ _ _ m u)
      misshapen (m, posts, inr (request, g, u)) =
          endpoint_input K S unmarshal group_version events J r state posts
          ∙ input_panics_later m (given_value J _ _ _ m g) (given_panic J _ _ _ m u)
