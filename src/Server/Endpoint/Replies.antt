-- ===== src/Server/Endpoint/Replies.antt =====
-- What `requestHandler` of integrity-shield-server/main.go writes about a decision.
use integrity_shield.Base.{
  ℕ, Str, bytes, List, [], ◌∷◌, ◌++◌, Option, none, some, Option-cases, Error, ok, err,
  Result-cases, returns, panics, returns-injective, ◌≡◌, inl, inr, refl, sym, ap, subst, ◌∙◌, arith,
}
use integrity_shield.External.Kube.{Kube, Client}
use integrity_shield.External.Sigstore.{Sigstore}
use integrity_shield.Server.Parameter.{ParameterObject}
use integrity_shield.Server.Config.{RequestHandlerConfig}
use integrity_shield.Server.Shield.Request.{Request, State}
use integrity_shield.Server.Shield.Event.{Event}
use integrity_shield.Server.Shield.Handler.{Handled, request_handler}
use integrity_shield.Server.Endpoint.{
  Call, write, http_error, status_internal_server_error, Codec, Reply, decide,
}

module _ (K : Kube) (S : Sigstore K.Cluster)
    (unmarshal : Str → Option (RequestHandlerConfig S) × Option Error)
    (group_version : Str → Str → Str) (events : Client K.Cluster Event)
    (J : Codec (ParameterObject S)) (state : State K) where
  abbrev deciding : Request → ParameterObject S → Reply K S unmarshal group_version events J
  deciding = decide K S unmarshal group_version events J state

  pub error-ne-write : {m : Str} {n : ℕ} {resp : Str} → http_error m n ≡ write resp → ⊥
  error-ne-write p = cc

  abbrev handled : Request → ParameterObject S → Handled K S
  handled request parameters =
      request_handler K S unmarshal group_version events request parameters state

  -- The decision is written as it is, and the connection takes it.
  abbrev pub Written : Request → ParameterObject S → Str → State K → Type 0
  Written request parameters resp state' =
      (J.marshal_result
          (request_handler K S unmarshal group_version events request parameters state).result
        ≡ ok resp)
      × (J.write_error resp ≡ none)
      × ((request_handler K S unmarshal group_version events request parameters state).state
          ≡ state')

  module _ (request : Request) (parameters : ParameterObject S) where
    pub decide-Written :
        {resp : Str} {state' : State K}
        → Written request parameters resp state'
        → deciding request parameters ≡ returns (write resp ∷ [], state')
    unfolding decide
    decide-Written (p, q, e) = ground arith

    decide_unmarshalled :
        {e : Error}
        → J.marshal_result (handled request parameters).result ≡ err e
        → deciding request parameters
          ≡ returns (
            http_error
                  (bytes "marshaling request handler result: " ++ e.message)
                  status_internal_server_error
                ∷ [],
            (handled request parameters).state,
          )
    unfolding decide
    decide_unmarshalled p = ground arith

    decide_unwritten :
        {resp : Str} {e : Error}
        → J.marshal_result (handled request parameters).result ≡ ok resp
        → J.write_error resp ≡ some e
        → deciding request parameters
          ≡ returns (
            write resp
                ∷ http_error
                    (bytes "could not write response: " ++ e.message)
                    status_internal_server_error
                ∷ [],
            (handled request parameters).state,
          )
    unfolding decide
    decide_unwritten p q = ground arith

    heads : {c d : Call} {cs ds : List Call} → c ∷ cs ≡ d ∷ ds → c ≡ d
    heads p = cc

    one-ne-two : {c d e : Call} {cs : List Call} → c ∷ d ∷ cs ≡ e ∷ [] → ⊥
    one-ne-two p = cc

    same_write : {a b : Str} → write a ≡ write b → a ≡ b
    same_write p = cc

    pair : {p q : List Call × State K} → returns p ≡ returns q → (p.0 ≡ q.0) × (p.1 ≡ q.1)
    pair h = let e = returns-injective h in (λ i. (e i).0, λ i. (e i).1)

    pub of_decide :
        {resp : Str} {state' : State K}
        → deciding request parameters ≡ returns (write resp ∷ [], state')
        → Written request parameters resp state'
    of_decide {resp} {state'} h =
        elim (Result-cases (J.marshal_result (handled request parameters).result)) [
          | inr (e, p) ↦ absurd (error-ne-write (heads (pair (sym (decide_unmarshalled p) ∙ h)).0))
          | inl (out, p) ↦ elim (Option-cases (J.write_error out)) [
            | inr (e, q) ↦ absurd (one-ne-two (pair (sym (decide_unwritten p q) ∙ h)).0)
            | inl q ↦
                let (c, s) = pair (sym (decide-Written (p, q, refl)) ∙ h) in
                let same = same_write (heads c) in
                (p ∙ ap ok same, subst (λ x. J.write_error x ≡ none) same q, s)
          ]
        ]

    returns-ne-panics : {x : List Call × State K} → returns x ≡ panics → ⊥
    returns-ne-panics p = cc

    pub decide-ne-panics : deciding request parameters ≡ panics → ⊥
    decide-ne-panics h =
        elim (Result-cases (J.marshal_result (handled request parameters).result)) [
          | inr (e, p) ↦ returns-ne-panics (sym (decide_unmarshalled p) ∙ h)
          | inl (out, p) ↦ elim (Option-cases (J.write_error out)) [
            | inr (e, q) ↦ returns-ne-panics (sym (decide_unwritten p q) ∙ h)
            | inl q ↦ returns-ne-panics (sym (decide-Written (p, q, refl)) ∙ h)
          ]
        ]
