-- ===== src/Server/Shield/Handler/Rules.antt =====
-- What the rules and the check of an update make of a request (`RequestHandler` of
-- integrity-shield-server/pkg/shield/request_handler.go).
use integrity_shield.Base.{Str, ◌≡◌, true, false, Option, ok, Error, arith, ◌⊎◌, inl, inr, ◌↔◌}
use integrity_shield.External.Kube.{Kube, Client}
use integrity_shield.External.Sigstore.{Sigstore}
use integrity_shield.Server.Parameter.{ParameterObject, binding_list_match}
use integrity_shield.Server.Parameter.Bindings.{binding_list_match_iff}
use integrity_shield.Server.Config.{RequestHandlerConfig, setup_logger}
use integrity_shield.Server.Shield.Request.{Request, State, is_update_request}
use integrity_shield.Server.Shield.Mutation.{skip_objects_match}
use integrity_shield.Server.Shield.Mutation.Differences.{skip_objects_match_iff}
use integrity_shield.Server.Shield.Event.{Event}
use integrity_shield.Server.Shield.Handler.{
  Handled, verification_answer, with_event, apply_rules, handle_resource,
}
use integrity_shield.Server.Shield.Handler.Reasons.{
  mutated, verification, Passable, user_skipped, common_user_skipped, out_of_scope, object_skipped,
  unprotected, signed, verification_answer_allow, verification_answer_of_ok,
}

module _ (K : Kube) (S : Sigstore K.Cluster)
    (unmarshal : Str → Option (RequestHandlerConfig S) × Option Error)
    (group_version : Str → Str → Str) (events : Client K.Cluster Event) where
  open S use {Object, DiffResult, unmarshal_object, reference_match, reference_list_match}

  abbrev pub ruled :
      Request → ParameterObject S → RequestHandlerConfig S → Object → State K → Handled K S
  ruled = apply_rules K S unmarshal group_version events

  apply_rules_allow :
      (req : Request) (param : ParameterObject S) (config : RequestHandlerConfig S)
      (resource : Object) (state : State K)
      → ((ruled req param config resource state).result.allow ≡ true) ↔ (
          (binding_list_match S param.skip_users resource req.user_name ≡ true)
          ⊎ (binding_list_match S config.request_filter_profile.skip_users resource req.user_name
              ≡ true)
          ⊎ (reference_list_match param.in_scope_objects resource ≡ false)
          ⊎ (skip_objects_match S config.request_filter_profile.skip_objects resource ≡ true)
          ⊎ ((verification_answer K S
                (verification K S param config resource state.cluster state.files)).allow
              ≡ true))
  unfolding apply_rules with_event
  apply_rules_allow req param config resource state = ground arith

  pub apply_rules-Passable :
      (req : Request) (param : ParameterObject S) (config : RequestHandlerConfig S)
      (resource : Object) (state : State K)
      → (ruled req param config resource state).result.allow ≡ true
      → Passable K S req param config resource state.cluster state.files
  apply_rules-Passable req param config resource state h =
      elim ((apply_rules_allow req param config resource state).0 h) [
        | inl u ↦ user_skipped ((binding_list_match_iff S _ _ _).0 u)
        | inr (inl u) ↦ common_user_skipped ((binding_list_match_iff S _ _ _).0 u)
        | inr (inr (inl o)) ↦ out_of_scope o
        | inr (inr (inr (inl o))) ↦ object_skipped ((skip_objects_match_iff S _ _).0 o)
        | inr (inr (inr (inr v))) ↦
            let (x, e, why) = verification_answer_allow K S _ v in
            elim why [ inl p ↦ unprotected x e p | inr p ↦ signed x e p ]
      ]

  pub Passable-apply_rules :
      (req : Request) (param : ParameterObject S) (config : RequestHandlerConfig S)
      (resource : Object) (state : State K)
      → Passable K S req param config resource state.cluster state.files
      → (ruled req param config resource state).result.allow ≡ true
  Passable-apply_rules req param config resource state p =
      (apply_rules_allow req param config resource state).1 (elim p [
        | user_skipped b ↦ inl ((binding_list_match_iff S _ _ _).1 b)
        | common_user_skipped b ↦ inr (inl ((binding_list_match_iff S _ _ _).1 b))
        | out_of_scope o ↦ inr (inr (inl o))
        | object_skipped o ↦ inr (inr (inr (inl ((skip_objects_match_iff S _ _).1 o))))
        | unprotected x e q ↦ inr (inr (inr (inr (rw e (verification_answer_of_ok K S x (inl q))))))
        | signed x e q ↦ inr (inr (inr (inr (rw e (verification_answer_of_ok K S x (inr q))))))
      ])

  module _ (req : Request) (param : ParameterObject S) (config : RequestHandlerConfig S)
      (resource : Object) where
    -- What the check of an update comes to, in the three ways that it can go on.
    abbrev pub IsUnmutated : Type 0
    IsUnmutated =
        (is_update_request req.operation ≡ true)
        × (mutated K S req param config resource ≡ ok false)

    abbrev pub GoesOn : Type 0
    GoesOn =
        (is_update_request req.operation ≡ false)
        ⊎ (mutated K S req param config resource ≡ ok true)

    pub handle_resource_allow :
        (state : State K)
        → ((handle_resource K S unmarshal group_version events req param config resource
              state).result.allow
            ≡ true)
          ↔ (IsUnmutated
              ⊎ (GoesOn
                  × ((ruled req param config resource (record state {
                    logger = setup_logger config.log state.logger;
                  })).result.allow
                      ≡ true)))
    unfolding handle_resource
    handle_resource_allow state = ground arith
