-- ===== src/Server/Endpoint.antt =====
-- The HTTP handlers of integrity-shield-server/main.go.
pub mod Inputs
pub mod Replies
pub mod Decisions
use integrity_shield.Base.{
  ℕ, Str, bytes, ◌==◌, byte_eq, Bool, true, false, List, [], ◌∷◌, ◌++◌, Option, none, some, Error,
  Result, ok, err, Outcome, returns, panics, if◌then◌else◌, not,
}
use integrity_shield.External.Kube.{Kube, Client}
use integrity_shield.External.Sigstore.{Sigstore}
use integrity_shield.Server.Parameter.{ParameterObject}
use integrity_shield.Server.Config.{RequestHandlerConfig}
use integrity_shield.Server.Shield.Request.{Request, ResultFromRequestHandler, State}
use integrity_shield.Server.Shield.Event.{Event}
use integrity_shield.Server.Shield.Handler.{request_handler}

-- What the handlers read of an `http.Request`.
pub record HttpRequest : Type 0 where
  pub method : Str
  pub content_type : Str
  pub body : Str

-- The calls on the `http.ResponseWriter`; `http_error` is `http.Error`.
pub data Call : Type 0 where
  write_header : ℕ → Call
  write : Str → Call
  http_error : Str → ℕ → Call

abbrev pub status_bad_request : ℕ
status_bad_request = 400

abbrev pub status_not_found : ℕ
status_not_found = 404

abbrev pub status_internal_server_error : ℕ
status_internal_server_error = 500

unfoldable pub error_handler : ℕ → List Call
error_handler status =
    if byte_eq status status_not_found
    then write_header status ∷ write (bytes "Custom 404") ∷ []
    else write_header status ∷ []

unfoldable pub default_handler : List Call
unfolding error_handler
default_handler = error_handler status_not_found

unfoldable pub check_liveness : List Call
check_liveness = write (bytes "liveness ok") ∷ []

unfoldable pub check_readiness : List Call
check_readiness = write (bytes "readiness ok") ∷ []

-- encoding/json, for the types that the request handler converts between, and the connection.
pub record Codec (Parameters : Type 0) : Type 1 where
  -- the dynamic values of `interface{}`
  pub Interface : Type 0
  pub is_nil : Interface → Bool
  -- the assertion of the type `map[string]interface{}`
  pub as_map : Interface → Option (List (Str × Interface))
  pub unmarshal_map : Str → Result (List (Str × Interface))
  pub marshal_map : List (Str × Interface) → Str
  -- the pointer after an `Unmarshal` whose error is not looked at
  pub unmarshal_request : Str → Option Request
  pub unmarshal_parameters : Str → Option Parameters
  pub marshal_result : ResultFromRequestHandler → Result Str
  -- the error of `w.Write`
  pub write_error : Str → Option Error

-- What a step of the handler leads to: the message of an internal error, or a value.
pub data Decoded (A : Type 0) : Type 0 where
  replies : Str → Decoded A
  decoded : A → Decoded A

unfoldable pub value_of : {A : Type 0} → Str → List (Str × A) → Option A
value_of key [] = none
value_of key (e ∷ rest) = let later = value_of key rest in if e.0 == key then some e.1 else later

module _ {Parameters : Type 0} (J : Codec Parameters) where
  open J use {Interface, is_nil, as_map, marshal_map}

  unfoldable pub conversion_failed : {A : Type 0} → Str → Str → Decoded A
  conversion_failed key type_name =
      replies
        (bytes "failed to convert `" ++ (key ++ (bytes "` in input object into " ++ type_name)))

  -- The value under a key, converted by `convert`; `%T` prints the name of the type.
  unfoldable pub input_value :
      {A : Type 0} → (Str → Option A) → Str → Str → List (Str × Interface) → Outcome (Decoded A)
  unfolding value_of conversion_failed
  input_value convert key type_name input_map = elim (value_of key input_map) [
    | none ↦ returns (replies (bytes "failed to find `" ++ (key ++ bytes "` key in input object")))
    | some value ↦
        if is_nil value then returns (conversion_failed key type_name) else elim (as_map value) [
          | none ↦ panics
          | some fields ↦ elim (convert (marshal_map fields)) [
            | none ↦ returns (conversion_failed key type_name)
            | some a ↦ returns (decoded a)
          ]
        ]
  ]

module _ (K : Kube) (S : Sigstore K.Cluster)
    (unmarshal : Str → Option (RequestHandlerConfig S) × Option Error)
    (group_version : Str → Str → Str) (events : Client K.Cluster Event)
    (J : Codec (ParameterObject S)) where
  abbrev pub Reply : Type 0
  Reply = Outcome (List Call × State K)

  unfoldable pub go_on : {A : Type 0} → State K → Outcome (Decoded A) → (A → Reply) → Reply
  go_on state panics f = panics
  go_on state (returns (replies message)) f =
      returns (http_error message status_internal_server_error ∷ [], state)
  go_on state (returns (decoded a)) f = f a

  -- The decision, and what is written about it.
  unfoldable pub decide : State K → Request → ParameterObject S → Reply
  decide state request parameters =
      let handled = request_handler K S unmarshal group_version events request parameters state in
      elim (J.marshal_result handled.result) [
        | err e ↦ returns (
          http_error (bytes "marshaling request handler result: " ++ e.message)
                status_internal_server_error
              ∷ [],
          handled.state,
        )
        | ok resp ↦ elim (J.write_error resp) [
          | none ↦ returns (write resp ∷ [], handled.state)
          | some e ↦ returns (
            write resp
                ∷ http_error (bytes "could not write response: " ++ e.message)
                    status_internal_server_error
                ∷ [],
            handled.state,
          )
        ]
      ]

  unfoldable pub decide_input : State K → List (Str × J.Interface) → Reply
  unfolding go_on input_value decide
  decide_input state input_map =
      go_on state
        (input_value J J.unmarshal_request (bytes "request") (bytes "*admission.Request") input_map)
        (λ request.
          go_on state
            (input_value J J.unmarshal_parameters (bytes "parameters")
              (bytes "*config.ParameterObject") input_map)
            (λ parameters. decide state request parameters))

  -- `requestHandler`
  unfoldable pub request_endpoint : HttpRequest → State K → Reply
  unfolding decide_input
  request_endpoint r state =
      if not (r.method == bytes "POST")
      then returns (write_header status_bad_request ∷ [], state)
      else if not (r.content_type == bytes "application/json")
      then returns (write_header status_bad_request ∷ [], state)
      else elim (J.unmarshal_map r.body) [
        | err e ↦ returns (
          http_error (bytes "unmarshaling input data as map[string]interface{}: " ++ e.message)
                status_internal_server_error
              ∷ [],
          state,
        )
        | ok input_map ↦ decide_input state input_map
      ]
