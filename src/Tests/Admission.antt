-- ===== src/Tests/Admission.antt =====
-- Requests to the admission controller, and its theorems at concrete inputs.
use integrity_shield.Base.{
  Str, bytes, ◌==◌, join, ◌≡◌, refl, Bool, true, false, [], ◌∷◌, Option, none, some, ok, err, Error,
  Outcome, returns, panics, any, keep, flag_loop, arith, inl, inr, Memᴰ, Passes,
}
use integrity_shield.Server.Parameter.{binding_list_match}
use integrity_shield.Server.Shield.Request.{
  Request, GroupVersionKind, ResultFromRequestHandler, State, load_request_handler_config,
}
use integrity_shield.Server.Shield.Mutation.{skip_objects_match}
use integrity_shield.Server.Shield.VerifyOption.{set_verify_option}
use integrity_shield.Server.Shield.Event.{create_or_update_event, event_message}
use integrity_shield.Server.Shield.Handler.{request_handler, verification_answer}
use integrity_shield.Admission.Config.{
  AdmissionControllerConfig, namespace_match, allow_match, check_if_detect_only,
}
use integrity_shield.Admission.Config.Scope.{allow_match_iff}
use integrity_shield.Admission.Profile.{MatchCondition}
use integrity_shield.Admission.Profile.History.{
  Denial, detail, update_statuses, update_statuses_lem,
}
use integrity_shield.Admission.Match.{
  match_check, check_namespace_match, check_kind_match, check_namespace_label_match,
  check_label_match,
}
use integrity_shield.Admission.Match.Applies.{match_check_iff}
use integrity_shield.Admission.Status.{Profiles, update_constraints}
use integrity_shield.Admission.Status.Updates.{get-update_constraints, denials_of}
use integrity_shield.Admission.Webhook.{
  Response, allowed, denied, load_constraints, profile_message, get_accumulated_result,
  process_request, load_admission_controller_config, respond, apply_mode,
}
use integrity_shield.Admission.Webhook.Accumulate.{get_accumulated_result_lem}
use integrity_shield.Admission.Webhook.Rejects.{Rejected}
use integrity_shield.Admission.Webhook.Denials.{process_request_iff}
use integrity_shield.Admission.Webhook.Failures.{
  process_request_unconfigured, process_request_unlisted,
}
use integrity_shield.Tests.World.{
  kube, unconfigured, manifests, labels, events, profile_client, profile_client-UpdateIsLawful,
  Store, StoredProfile, Pairs, find, failure, unmarshal, group_version, parameters, create, before,
  store,
}

abbrev everything : MatchCondition Pairs
everything = record {
  kinds = [];
  namespaces = bytes "ns" ∷ [];
  excluded_namespaces = [];
  label_selector = none;
  namespace_selector = none;
}

abbrev profile : StoredProfile
profile = record {
  name = bytes "p";
  spec = record { match = everything; parameters = parameters };
  status = record { deny_count = 0; violations = [] };
}

abbrev protected : Store
protected = record store { profiles = profile ∷ [] }

abbrev profiles : Profiles kube manifests Pairs
profiles = record {
  new_for_config = none;
  list = λ w. ok w.profiles;
  client = profile_client;
  timestamp = bytes "now";
}

abbrev enforcing : AdmissionControllerConfig
enforcing = record {
  in_scope_namespace_selector = record { include = []; exclude = [] };
  allow = record { kinds = [] };
  side_effect = record { update_mip_status_for_denied_request = true };
  mode = bytes "inform";
  options = [];
}

abbrev unmarshal_config : Str → Option AdmissionControllerConfig × Option Error
unmarshal_config _ = (some enforcing, none)

abbrev state : State kube
state = record before { cluster = protected }

-- The controller over the cluster in memory.
process : Request → State kube → Outcome (Response × State kube)
unfolding process_request request_handler bytes ◌==◌ binding_list_match any skip_objects_match
    set_verify_option verification_answer create_or_update_event event_message match_check
    namespace_match allow_match flag_loop get_accumulated_result update_constraints
    check_if_detect_only join find load_admission_controller_config respond apply_mode
    check_namespace_match check_kind_match check_namespace_label_match check_label_match
    load_request_handler_config
process =
    process_request kube manifests labels profiles unmarshal group_version events unmarshal_config

abbrev answer_of : Outcome (Response × State kube) → Bool
answer_of panics = false
answer_of (returns (allowed _, _)) = true
answer_of (returns (denied _, _)) = false

signed_passes : answer_of (process (create (bytes "signed")) state) ≡ true
unfolding process
signed_passes = refl

plain_stopped : answer_of (process (create (bytes "plain")) state) ≡ false
unfolding process
plain_stopped = refl

loads : load_admission_controller_config kube unmarshal_config protected ≡ (some enforcing, none)
unfolding load_admission_controller_config bytes ◌==◌ find
loads = refl

open_scope : namespace_match manifests enforcing.in_scope_namespace_selector (bytes "ns") ≡ true
unfolding namespace_match
open_scope = refl

nothing_allowed : allow_match manifests enforcing.allow (create (bytes "plain")).kind ≡ false
unfolding allow_match any
nothing_allowed = refl

plain_denied :
    (m : Str) × (s : State kube) × (process_request kube manifests labels profiles unmarshal
        group_version events unmarshal_config
        (create (bytes "plain"))
        state
      ≡ returns (denied m, s))
unfolding process
plain_denied = (_, _, refl)

process_request_iff_example :
    (namespace_match manifests enforcing.in_scope_namespace_selector (bytes "ns") ≡ true)
    × (allow_match manifests enforcing.allow (create (bytes "plain")).kind ≡ false)
    × (check_if_detect_only (bytes "inform") ≡ false)
    × Rejected kube manifests labels profiles unmarshal group_version events
        (create (bytes "plain"))
        (load_constraints kube manifests labels profiles protected).0
        state
process_request_iff_example =
    (process_request_iff kube manifests labels profiles unmarshal group_version events
        unmarshal_config (create (bytes "plain")) state enforcing loads).0
      plain_denied

abbrev lonely : State unconfigured
lonely = record { logger = before.logger; files = []; cluster = protected }

abbrev lonely_profiles : Profiles unconfigured manifests Pairs
lonely_profiles = record {
  new_for_config = none;
  list = λ w. ok w.profiles;
  client = profile_client;
  timestamp = bytes "now";
}

process_request_unconfigured_example :
    process_request unconfigured manifests labels lonely_profiles unmarshal group_version events
      unmarshal_config
      (create (bytes "signed"))
      lonely
    ≡ panics
process_request_unconfigured_example =
    process_request_unconfigured unconfigured manifests labels lonely_profiles unmarshal
      group_version events unmarshal_config (create (bytes "signed")) lonely {e = failure} refl

abbrev unlisted : Profiles kube manifests Pairs
unlisted = record profiles { list = λ _. err failure }

process_request_unlisted_example :
    (s : State kube) × (process_request kube manifests labels unlisted unmarshal group_version
        events unmarshal_config
        (create (bytes "plain"))
        state
      ≡ returns (allowed [], s))
process_request_unlisted_example =
    process_request_unlisted kube manifests labels unlisted unmarshal group_version events
      unmarshal_config (create (bytes "plain")) state enforcing {e = failure} loads open_scope
      nothing_allowed refl

abbrev stop : ResultFromRequestHandler
stop = record { allow = false; message = bytes "no"; profile = bytes "p" }

abbrev go_on : ResultFromRequestHandler
go_on = record { allow = true; message = bytes "yes"; profile = bytes "q" }

get_accumulated_result_lem_example :
    get_accumulated_result (go_on ∷ stop ∷ []) ≡ record { allow = false; message = bytes "[p]no" }
unfolding any keep join profile_message bytes
get_accumulated_result_lem_example = get_accumulated_result_lem (go_on ∷ stop ∷ [])

no_exclusion : ¬ Passes (λ ens. manifests.match_pattern ens (create (bytes "plain")).namespace) []
no_exclusion w = elim (w.1) [ ]

match_check_iff_example :
    match_check kube manifests labels protected (create (bytes "plain")) everything ≡ true
match_check_iff_example =
    (match_check_iff kube manifests labels protected (create (bytes "plain")) everything).1 (
      no_exclusion,
      inr (inr (bytes "ns", Memᴰ.head refl, unfold bytes ◌==◌ in refl)),
      inl refl,
      tt,
      tt,
    )

get-update_constraints_example :
    profile_client.get
      (update_constraints kube manifests Pairs profiles false
        (create (bytes "plain"))
        (go_on ∷ stop ∷ [])
        protected)
      []
      (bytes "p")
    ≡ ok (
        update_statuses manifests Pairs profile
          (denials_of (bytes "p") false (create (bytes "plain")) (bytes "now") (go_on ∷ stop ∷ [])))
get-update_constraints_example =
    get-update_constraints kube manifests Pairs profiles profile_client-UpdateIsLawful refl refl
      (λ _ _. refl) (bytes "p") false (create (bytes "plain")) (go_on ∷ stop ∷ []) protected
      {mip = profile} (unfold find bytes ◌==◌ in refl)

abbrev refusal : Denial
refusal = record { request = create (bytes "plain"); message = bytes "no"; timestamp = bytes "now" }

update_statuses_lem_example :
    update_statuses manifests Pairs profile (refusal ∷ refusal ∷ []) ≡ record profile {
      status = record { deny_count = 2; violations = detail refusal ∷ detail refusal ∷ [] };
    }
update_statuses_lem_example =
    update_statuses_lem manifests Pairs profile (refusal ∷ refusal ∷ []) (omega arith) (omega arith)

abbrev pods : GroupVersionKind
pods = record { group = []; version = []; kind = bytes "Pod" }

allow_match_iff_example :
    allow_match manifests (record { kinds = pods ∷ [] }) (create (bytes "plain")).kind ≡ true
allow_match_iff_example =
    (allow_match_iff manifests (record { kinds = pods ∷ [] }) (create (bytes "plain")).kind).1
      (pods, Memᴰ.head refl, inl refl, inr (unfold bytes ◌==◌ in refl), inl refl)
