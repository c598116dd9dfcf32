-- ===== src/Server/Shield/Handler/Reasons.antt =====
-- The reasons for which a request is admitted (`RequestHandler` of
-- integrity-shield-server/pkg/shield/request_handler.go).
use integrity_shield.Base.{
  Str, ◌≡◌, refl, Bool, true, false, Option, none, Result, ok, err, Error, arith, ◌⊎◌, Passes,
}
use integrity_shield.External.Kube.{Kube}
use integrity_shield.External.Sigstore.{Sigstore, VerifyResourceResult}
use integrity_shield.Server.Parameter.{ParameterObject}
use integrity_shield.Server.Parameter.Bindings.{Binds}
use integrity_shield.Server.Config.{RequestHandlerConfig}
use integrity_shield.Server.Shield.Request.{
  Request, State, is_update_request, load_request_handler_config,
}
use integrity_shield.Server.Shield.Mutation.{mutation_check, get_matched_ignore_fields}
use integrity_shield.Server.Shield.VerifyOption.{set_verify_option}
use integrity_shield.Server.Shield.Handler.{annotation_type, verification_answer, config_or_empty}

module _ (K : Kube) (S : Sigstore K.Cluster) where
  open S use {Object, DiffResult, unmarshal_object, reference_match, reference_list_match}
  open S use {verify_resource}

  -- The mutation check of a request.
  abbrev pub mutated : Request → ParameterObject S → RequestHandlerConfig S → Object → Result Bool
  mutated req param config resource = mutation_check S req.old_object_raw req.object_raw (
      get_matched_ignore_fields S param.verify_resource_option.ignore_fields
        config.request_filter_profile.ignore_fields resource)

  -- The verification of a resource, with the option that is set for it.
  abbrev pub verification :
      ParameterObject S
      → RequestHandlerConfig S
      → Object
      → K.Cluster
      → K.Files
      → Result (VerifyResourceResult DiffResult)
  verification param config resource w files =
      verify_resource w resource
        (set_verify_option K S param config (annotation_type (S.annotations resource)) w
          files).0.verify_resource_option

  -- The reasons for which the rules let a resource pass.
  pub data Passable (req : Request) (param : ParameterObject S) (config : RequestHandlerConfig S)
      (resource : Object) (w : K.Cluster) (files : K.Files) : Type 0 where
    user_skipped :
        Binds S param.skip_users resource req.user_name → Passable req param config resource w files
    common_user_skipped :
        Binds S config.request_filter_profile.skip_users resource req.user_name
        → Passable req param config resource w files
    out_of_scope :
        reference_list_match param.in_scope_objects resource ≡ false
        → Passable req param config resource w files
    object_skipped :
        Passes (λ r. reference_match r resource) config.request_filter_profile.skip_objects
        → Passable req param config resource w files
    unprotected :
        (r : VerifyResourceResult DiffResult)
        → verification param config resource w files ≡ ok r
        → r.in_scope ≡ false
        → Passable req param config resource w files
    signed :
        (r : VerifyResourceResult DiffResult)
        → verification param config resource w files ≡ ok r
        → r.verified ≡ true
        → Passable req param config resource w files

  -- A verification that answers `allow` found the resource signed, or not protected.
  pub verification_answer_allow :
      (r : Result (VerifyResourceResult DiffResult))
      → (verification_answer K S r).allow ≡ true
      → (x : VerifyResourceResult DiffResult) × (r ≡ ok x)
        × ((x.in_scope ≡ false) ⊎ (x.verified ≡ true))
  unfolding verification_answer
  verification_answer_allow (err e) h = ground arith
  verification_answer_allow (ok x) h = (x, refl, ground arith)

  pub verification_answer_of_ok :
      (x : VerifyResourceResult DiffResult)
      → (x.in_scope ≡ false) ⊎ (x.verified ≡ true)
      → (verification_answer K S (ok x)).allow ≡ true
  unfolding verification_answer
  verification_answer_of_ok x h = ground arith

  module _ (unmarshal : Str → Option (RequestHandlerConfig S) × Option Error) where
    -- The reasons for which a request is admitted.
    pub data Admitted (req : Request) (param : ParameterObject S) (state : State K) : Type 0 where
      no_mutation :
          (resource : Object) (config : Option (RequestHandlerConfig S))
          → unmarshal_object req.object_raw ≡ ok resource
          → load_request_handler_config K S unmarshal state.cluster ≡ (config, none)
          → is_update_request req.operation ≡ true
          → mutated req param (config_or_empty K S config) resource ≡ ok false
          → Admitted req param state
      by_rules :
          (resource : Object) (config : Option (RequestHandlerConfig S))
          → unmarshal_object req.object_raw ≡ ok resource
          → load_request_handler_config K S unmarshal state.cluster ≡ (config, none)
          → (is_update_request req.operation ≡ false)
            ⊎ (mutated req param (config_or_empty K S config) resource ≡ ok true)
          → Passable req param (config_or_empty K S config) resource state.cluster state.files
          → Admitted req param state
