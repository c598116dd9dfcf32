-- ===== src/Tests/Endpoint.antt =====
-- The HTTP endpoint of the server, and the theorems about it at concrete inputs.
use integrity_shield.Base.{
  Str, bytes, ◌==◌, true, false, List, [], ◌∷◌, none, some, Result, ok, err, returns, panics,
  if◌then◌else◌, ◌≡◌, refl, ap, inl,
}
use integrity_shield.Server.Parameter.{ParameterObject}
use integrity_shield.Server.Shield.Handler.{request_handler}
use integrity_shield.Server.Endpoint.{
  HttpRequest, write_header, write, Codec, value_of, request_endpoint,
}
use integrity_shield.Server.Endpoint.Decisions.{request_endpoint_iff, request_endpoint_panics_iff}
use integrity_shield.Tests.World.{
  kube, manifests, unmarshal, group_version, events, parameters, create, before, failure,
}
use integrity_shield.Tests.Server.{handle, signed_allowed}

data Value : Type 0 where
  null_value : Value
  text : Value
  object : Value

abbrev input_of : Str → Result (List (Str × Value))
input_of body =
    if body == bytes "both"
    then ok ((bytes "request", object) ∷ (bytes "parameters", object) ∷ [])
    else if body == bytes "text"
    then ok ((bytes "request", text) ∷ [])
    else err failure

abbrev codec : Codec (ParameterObject manifests)
codec = record {
  Interface = Value;
  is_nil = λ v. elim v [ null_value ↦ true | _ ↦ false ];
  as_map = λ v. elim v [ object ↦ some [] | _ ↦ none ];
  unmarshal_map = input_of;
  marshal_map = λ _. bytes "{}";
  unmarshal_request = λ _. some (create (bytes "signed"));
  unmarshal_parameters = λ _. some parameters;
  marshal_result = λ r. ok (if r.allow then bytes "yes" else bytes "no");
  write_error = λ _. none;
}

abbrev post : Str → HttpRequest
post body = record { method = bytes "POST"; content_type = bytes "application/json"; body = body }

reads_both :
    input_of (bytes "both") ≡ ok ((bytes "request", object) ∷ (bytes "parameters", object) ∷ [])
unfolding bytes ◌==◌
reads_both = refl

reads_text : input_of (bytes "text") ≡ ok ((bytes "request", text) ∷ [])
unfolding bytes ◌==◌
reads_text = refl

allowed :
    (request_handler kube manifests unmarshal group_version events
      (create (bytes "signed"))
      parameters
      before).result.allow
    ≡ true
unfolding handle
allowed = signed_allowed

request_endpoint_iff_example :
    request_endpoint kube manifests unmarshal group_version events codec
      (post (bytes "both"))
      before
    ≡ returns (
      write (bytes "yes") ∷ [],
      (request_handler kube manifests unmarshal group_version events
          (create (bytes "signed"))
          parameters
          before).state,
    )
unfolding value_of bytes ◌==◌
request_endpoint_iff_example =
    (request_endpoint_iff kube manifests unmarshal group_version events codec (post (bytes "both"))
        before (bytes "yes")
        (request_handler kube manifests unmarshal group_version events (create (bytes "signed"))
          parameters before).state).1
      (
        create (bytes "signed"),
        parameters,
        (
          (bytes "request", object) ∷ (bytes "parameters", object) ∷ [],
          (refl, refl, reads_both),
          (object, [], refl, refl, refl, refl),
          (object, [], refl, refl, refl, refl),
        ),
        (ap (λ b. ok (if b then bytes "yes" else bytes "no")) allowed, refl, refl),
      )

request_endpoint_panics_iff_example :
    request_endpoint kube manifests unmarshal group_version events codec
      (post (bytes "text"))
      before
    ≡ panics
unfolding value_of bytes ◌==◌
request_endpoint_panics_iff_example =
    (request_endpoint_panics_iff kube manifests unmarshal group_version events codec
        (post (bytes "text")) before).1
      ((bytes "request", text) ∷ [], (refl, refl, reads_text), inl (text, refl, refl, refl))

refused_method :
    request_endpoint kube manifests unmarshal group_version events codec
      (record (post (bytes "both")) { method = bytes "GET" })
      before
    ≡ returns (write_header 400 ∷ [], before)
unfolding request_endpoint bytes ◌==◌
refused_method = refl
