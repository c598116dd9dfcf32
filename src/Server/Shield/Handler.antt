-- ===== src/Server/Shield/Handler.antt =====
-- `RequestHandler` of integrity-shield-server/pkg/shield/request_handler.go.
pub mod Reasons
pub mod Rules
pub mod Admits
pub mod Unchanged
use integrity_shield.Base.{
  ℕ, Str, bytes, ◌==◌, Bool, true, false, List, [], ◌∷◌, ◌++◌, is_empty, Option, none, some, Error,
  Result, ok, err, if◌then◌else◌, ◌||◌, not,
}
use integrity_shield.External.Kube.{Kube, Client}
use integrity_shield.External.Sigstore.{Sigstore, VerifyResourceResult}
use integrity_shield.Server.Parameter.{ParameterObject, binding_list_match}
use integrity_shield.Server.Config.{RequestHandlerConfig, empty_config, setup_logger}
use integrity_shield.Server.Shield.Request.{
  Request, ResultFromRequestHandler, State, is_update_request, find_key,
  load_request_handler_config,
}
use integrity_shield.Server.Shield.Mutation.{
  get_matched_ignore_fields, mutation_check, skip_objects_match, is_zero,
}
use integrity_shield.Server.Shield.VerifyOption.{
  set_verify_option, signature_annotation_type_shield,
}
use integrity_shield.Server.Shield.Event.{Event, create_or_update_event}

abbrev pub answer : Bool → Str → ResultFromRequestHandler
answer allow message = record { allow = allow; message = message; profile = [] }

-- `annotations["integrityshield.io/signature"]`, as the type of the signature annotation.
unfoldable pub annotation_type : List (Str × Str) → Str
unfolding find_key
annotation_type annotations = elim (find_key (bytes "integrityshield.io/signature") annotations) [
  | none ↦ []
  | some _ ↦ signature_annotation_type_shield
]

module _ (K : Kube) (S : Sigstore K.Cluster) where
  open K use {Cluster, Files}
  open S use {Object, DiffResult, unmarshal_object, annotations, reference_list_match, diff_size}
  open S use {diff_string, verify_resource}

  -- What the handler comes back with. It changes the verify option of its parameters.
  pub record Handled : Type 0 where
    pub result : ResultFromRequestHandler
    pub parameters : ParameterObject S
    pub state : State K

  -- A nil configuration stands for an empty one.
  unfoldable pub config_or_empty : Option (RequestHandlerConfig S) → RequestHandlerConfig S
  config_or_empty none = empty_config S
  config_or_empty (some c) = c

  -- The message about a resource with no valid signature.
  unfoldable pub unverified_message : VerifyResourceResult DiffResult → Str
  unverified_message result =
      let by_signer =
        if is_empty result.signer
        then bytes "Signature verification is required for this request, but no signature is found."
        else bytes
            "Signature verification is required for this request, but no signer config matches with this resource. This is signed by "
          ++ result.signer in
      elim (result.diff) [
        | none ↦ by_signer
        | some d ↦
            if is_zero (diff_size d)
            then by_signer
            else bytes
                "Signature verification is required for this request, but failed to verify signature. diff found: "
              ++ diff_string d
      ]

  -- The answer to a verification that ran.
  unfoldable pub verified_answer : VerifyResourceResult DiffResult → ResultFromRequestHandler
  unfolding unverified_message
  verified_answer result =
      if result.in_scope
      then (if result.verified
          then answer true (bytes "singed by a valid signer: " ++ result.signer)
          else answer false (unverified_message result))
      else answer true (bytes "not protected")

  unfoldable pub verification_answer :
      Result (VerifyResourceResult DiffResult) → ResultFromRequestHandler
  unfolding verified_answer
  verification_answer (err e) = answer false e.message
  verification_answer (ok result) = verified_answer result

  -- The answer that an update gets before the rules are looked at.
  unfoldable pub update_answer :
      Request
      → ParameterObject S
      → RequestHandlerConfig S
      → Object
      → Option ResultFromRequestHandler
  unfolding is_update_request get_matched_ignore_fields
  update_answer req param rhconfig resource =
      if is_update_request req.operation
      then elim (mutation_check S req.old_object_raw req.object_raw (
          get_matched_ignore_fields S param.verify_resource_option.ignore_fields
            rhconfig.request_filter_profile.ignore_fields resource)) [
              | err e ↦ some (
                  answer false (
                    bytes
                      "IntegrityShield failed to decide the response. Failed to check mutation: "
                    ++ e.message))
              | ok mutated ↦
                  if mutated then none else some (answer true (bytes "no mutation found"))
            ]
      else none

  module _ (unmarshal : Str → Option (RequestHandlerConfig S) × Option Error)
      (group_version : Str → Str → Str) (events : Client Cluster Event) where
    -- The end of the handler: an event for a denial, where the configuration asks for one.
    unfoldable pub with_event :
        Request
        → RequestHandlerConfig S
        → ResultFromRequestHandler
        → ParameterObject S
        → State K
        → Handled
    with_event req rhconfig r param state = record {
      result = r;
      parameters = param;
      state =
          if rhconfig.side_effect_config.create_deny_event
          then record state {
            cluster =
                (create_or_update_event K group_version events req r param.constraint_name
                  state.cluster).1;
          }
          else state;
    }

    -- The last branch: the signature is verified.
    unfoldable pub verify_request :
        Request → ParameterObject S → RequestHandlerConfig S → Object → State K → Handled
    unfolding annotation_type
    verify_request req param rhconfig resource state =
        let (param', files') =
          set_verify_option K S param rhconfig (annotation_type (annotations resource))
            state.cluster state.files in
        with_event req rhconfig
          (verification_answer
            (verify_resource state.cluster resource param'.verify_resource_option))
          param' (record state { files = files' })

    -- The rules, in their order.
    unfoldable pub apply_rules :
        Request → ParameterObject S → RequestHandlerConfig S → Object → State K → Handled
    unfolding verify_request
    apply_rules req param rhconfig resource state =
        let common_skip_user_matched =
          binding_list_match S rhconfig.request_filter_profile.skip_users resource req.user_name in
        let skip_object_matched =
          skip_objects_match S rhconfig.request_filter_profile.skip_objects resource in
        let skip_user_matched = binding_list_match S param.skip_users resource req.user_name in
        let in_scope_obj_matched = reference_list_match param.in_scope_objects resource in
        if skip_user_matched || common_skip_user_matched
        then with_event req rhconfig (answer true (bytes "SkipUsers rule matched.")) param state
        else if not in_scope_obj_matched
        then with_event req rhconfig
            (answer true (bytes "InScopeObjects rule did not match. Out of scope of verification."))
            param state
        else if skip_object_matched
        then with_event req rhconfig (answer true (bytes "SkipObjects rule matched.")) param state
        else verify_request req param rhconfig resource state

    unfoldable pub handle_resource :
        Request → ParameterObject S → RequestHandlerConfig S → Object → State K → Handled
    unfolding apply_rules with_event update_answer
    handle_resource req param rhconfig resource state =
        let state' = record state { logger = setup_logger rhconfig.log state.logger } in
        elim (update_answer req param rhconfig resource) [
          | some r ↦ record { result = r; parameters = param; state = state' }
          | none ↦ apply_rules req param rhconfig resource state'
        ]

    unfoldable pub request_handler : Request → ParameterObject S → State K → Handled
    unfolding handle_resource config_or_empty
    request_handler req param state = elim (unmarshal_object req.object_raw) [
      | err e ↦ record {
        result = answer false (
            bytes
              "IntegrityShield failed to decide the response. Failed to Unmarshal a requested object: "
            ++ e.message);
        parameters = param;
        state = state;
      }
      | ok resource ↦
          let (config, e?) = load_request_handler_config K S unmarshal state.cluster in
          elim e? [
            | some e ↦ record {
              result = answer false (
                  bytes
                    "IntegrityShield failed to decide the response. Failed to load request handler config: "
                  ++ e.message);
              parameters = param;
              state = state;
            }
            | none ↦ handle_resource req param (config_or_empty config) resource state
          ]
    ]
