-- ===== src/Server/Endpoint/Inputs.antt =====
-- Which inputs `requestHandler` of integrity-shield-server/main.go goes on with.
use integrity_shield.Base.{
  ℕ, Str, bytes, ◌==◌, ==_iff, true, false, Bool-cases, List, [], ◌∷◌, ◌++◌, Option, none, some,
  Option-cases, Error, ok, err, Result-cases, Outcome, returns, panics, ◌≡◌, ◌≢◌, ◌⊎◌, inl, inr,
  arith,
}
use integrity_shield.External.Kube.{Kube, Client}
use integrity_shield.External.Sigstore.{Sigstore}
use integrity_shield.Server.Parameter.{ParameterObject}
use integrity_shield.Server.Config.{RequestHandlerConfig}
use integrity_shield.Server.Shield.Request.{Request, State}
use integrity_shield.Server.Shield.Event.{Event}
use integrity_shield.Server.Endpoint.{
  HttpRequest, Call, write_header, write, http_error, status_bad_request,
  status_internal_server_error, Codec, Decoded, replies, decoded, value_of, conversion_failed,
  input_value, Reply, decide, decide_input, request_endpoint,
}

module _ {Parameters : Type 0} (J : Codec Parameters) where
  -- The key has a value that is an object, and the object converts.
  abbrev pub Gives : {A : Type 0} → (Str → Option A) → Str → List (Str × J.Interface) → A → Type 0
  Gives convert key m a =
      (v : J.Interface) × (fields : List (Str × J.Interface)) × (value_of key m ≡ some v)
      × (J.is_nil v ≡ false)
      × (J.as_map v ≡ some fields)
      × (convert (J.marshal_map fields) ≡ some a)

  -- The key has a value that is neither null nor an object.
  abbrev pub Unmapped : Str → List (Str × J.Interface) → Type 0
  Unmapped key m =
      (v : J.Interface) × (value_of key m ≡ some v) × (J.is_nil v ≡ false) × (J.as_map v ≡ none)

  module _ {A : Type 0} (convert : Str → Option A) (key type_name : Str)
      (m : List (Str × J.Interface)) where
    abbrev pub given : Outcome (Decoded A)
    given = input_value J convert key type_name m

    pub given_value : {a : A} → Gives convert key m a → given ≡ returns (decoded a)
    unfolding input_value
    given_value (v, fields, p, q, r, c) = ground arith

    pub given_panic : Unmapped key m → given ≡ panics
    unfolding input_value
    given_panic (v, p, q, r) = ground arith

    abbrev pub Refuses : Type 0
    Refuses = (message : Str) × (given ≡ returns (replies message))

    refuses_missing : value_of key m ≡ none → Refuses
    unfolding input_value
    refuses_missing p =
        (bytes "failed to find `" ++ (key ++ bytes "` key in input object"), ground arith)

    abbrev mismatch : Str
    mismatch =
        bytes "failed to convert `" ++ (key ++ (bytes "` in input object into " ++ type_name))

    refuses_nil : {v : J.Interface} → value_of key m ≡ some v → J.is_nil v ≡ true → Refuses
    unfolding input_value conversion_failed
    refuses_nil p q = (mismatch, ground arith)

    refuses_unconverted :
        {v : J.Interface} {fields : List (Str × J.Interface)}
        → value_of key m ≡ some v
        → J.is_nil v ≡ false
        → J.as_map v ≡ some fields
        → convert (J.marshal_map fields) ≡ none
        → Refuses
    unfolding input_value conversion_failed
    refuses_unconverted p q r c = (mismatch, ground arith)

    -- A value is given, or is no object, or the answer is an internal error.
    pub given_cases : ((a : A) × Gives convert key m a) ⊎ (Unmapped key m ⊎ Refuses)
    given_cases = elim (Option-cases (value_of key m)) [
      | inl p ↦ inr (inr (refuses_missing p))
      | inr (v, p) ↦ elim (Bool-cases (J.is_nil v)) [
        | inl q ↦ inr (inr (refuses_nil p q))
        | inr q ↦ elim (Option-cases (J.as_map v)) [
          | inl r ↦ inr (inl (v, p, q, r))
          | inr (fields, r) ↦ elim (Option-cases (convert (J.marshal_map fields))) [
            | inl c ↦ inr (inr (refuses_unconverted p q r c))
            | inr (a, c) ↦ inl (a, (v, fields, p, q, r, c))
          ]
        ]
      ]
    ]

module _ (K : Kube) (S : Sigstore K.Cluster)
    (unmarshal : Str → Option (RequestHandlerConfig S) × Option Error)
    (group_version : Str → Str → Str) (events : Client K.Cluster Event)
    (J : Codec (ParameterObject S)) where
  abbrev pub Endpoint : Type 0
  Endpoint = Reply K S unmarshal group_version events J

  abbrev deciding : State K → Request → ParameterObject S → Endpoint
  deciding = decide K S unmarshal group_version events J

  abbrev pub endpoint : HttpRequest → State K → Endpoint
  endpoint = request_endpoint K S unmarshal group_version events J

  abbrev GivesRequest : List (Str × J.Interface) → Request → Type 0
  GivesRequest = Gives J J.unmarshal_request (bytes "request")

  abbrev GivesParameters : List (Str × J.Interface) → ParameterObject S → Type 0
  GivesParameters = Gives J J.unmarshal_parameters (bytes "parameters")

  -- A POST of JSON whose body is an object.
  abbrev pub Posts : HttpRequest → List (Str × J.Interface) → Type 0
  Posts r m =
      (r.method ≡ bytes "POST")
      × (r.content_type ≡ bytes "application/json")
      × (J.unmarshal_map r.body ≡ ok m)

  -- A POST of JSON with a request and parameters.
  abbrev pub Decodes : HttpRequest → Request → ParameterObject S → Type 0
  Decodes r request parameters =
      (m : List (Str × J.Interface)) × Posts r m
      × Gives J J.unmarshal_request (bytes "request") m request
      × Gives J J.unmarshal_parameters (bytes "parameters") m parameters

  -- A POST of JSON in which the first of the two that is not an object is not null either.
  abbrev pub Misshapen : HttpRequest → Type 0
  Misshapen r =
      (m : List (Str × J.Interface)) × Posts r m
      × (Unmapped J (bytes "request") m
          ⊎ ((request : Request) × Gives J J.unmarshal_request (bytes "request") m request
              × Unmapped J (bytes "parameters") m))

  module _ (r : HttpRequest) (state : State K) where
    abbrev pub Refused : Type 0
    Refused =
        (c : Call) × ((resp : Str) → c ≢ write resp) × (endpoint r state ≡ returns (c ∷ [], state))

    pub endpoint_input :
        {m : List (Str × J.Interface)}
        → Posts r m
        → endpoint r state ≡ decide_input K S unmarshal group_version events J state m
    unfolding request_endpoint
    endpoint_input (p, q, d) = ground (
      arith,
      (==_iff r.method (bytes "POST")).1 p,
      (==_iff r.content_type (bytes "application/json")).1 q,
    )

    header-ne-write : {n : ℕ} {resp : Str} → write_header n ≡ write resp → ⊥
    header-ne-write p = cc

    error-ne-write : {m : Str} {n : ℕ} {resp : Str} → http_error m n ≡ write resp → ⊥
    error-ne-write p = cc

    endpoint_method : (r.method == bytes "POST") ≡ false → Refused
    unfolding request_endpoint
    endpoint_method p = (write_header status_bad_request, λ _ e. header-ne-write e, ground arith)

    endpoint_content :
        (r.method == bytes "POST") ≡ true
        → (r.content_type == bytes "application/json") ≡ false
        → Refused
    unfolding request_endpoint
    endpoint_content p q = (write_header status_bad_request, λ _ e. header-ne-write e, ground arith)

    endpoint_body :
        {e : Error}
        → (r.method == bytes "POST") ≡ true
        → (r.content_type == bytes "application/json") ≡ true
        → J.unmarshal_map r.body ≡ err e
        → Refused
    unfolding request_endpoint
    endpoint_body {e} p q d = (
      http_error (bytes "unmarshaling input data as map[string]interface{}: " ++ e.message)
          status_internal_server_error,
      λ _ e. error-ne-write e,
      ground arith,
    )

    -- A request is refused with the state as it was, or posts an object.
    pub endpoint-Posts : Refused ⊎ ((m : List (Str × J.Interface)) × Posts r m)
    endpoint-Posts = elim (Bool-cases (r.method == bytes "POST")) [
      | inr p ↦ inl (endpoint_method p)
      | inl p ↦ elim (Bool-cases (r.content_type == bytes "application/json")) [
        | inr q ↦ inl (endpoint_content p q)
        | inl q ↦ elim (Result-cases (J.unmarshal_map r.body)) [
          | inr (e, d) ↦ inl (endpoint_body p q d)
          | inl (m, d) ↦ inr (
            m,
            (
              (==_iff r.method (bytes "POST")).0 p,
              (==_iff r.content_type (bytes "application/json")).0 q,
              d,
            ),
          )
        ]
      ]
    ]
