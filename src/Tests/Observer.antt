-- ===== src/Tests/Observer.antt =====
-- Observations, and the theorems about them at concrete inputs.
use integrity_shield.Base.{
  Str, bytes, ◌==◌, ◌≡◌, refl, true, false, List, [], ◌∷◌, length, any, keep, none, some, ok, err,
  Outcome, returns, panics, inl, inr, ◌⊎◌, Memᴰ,
}
use integrity_shield.External.Kube.{Client}
use integrity_shield.External.Dynamic.{ApiResource}
use integrity_shield.Server.Config.{empty_config}
use integrity_shield.Server.Shield.Request.{load_request_handler_config}
use integrity_shield.Admission.Profile.{Kinds, MatchCondition}
use integrity_shield.Observer.Pattern.{Rule, match_pattern, check_if_inscope_constraint}
use integrity_shield.Observer.Pattern.Globs.{match_pattern_iff, check_if_inscope_constraint_iff}
use integrity_shield.Observer.Constraint.{
  GroupResource, GroupResourceWithTargetNs, ConstraintSpec, load_constraints,
  check_if_rule_match_with_gvk, get_possible_protected_gvks,
}
use integrity_shield.Observer.Constraint.Rules.{
  FirstReached, check_if_rule_match_with_gvk_iff, get_possible_protected_gvks_lem,
}
use integrity_shield.Observer.Resources.{
  resource_of, get_all_resources_by_group_resource, get_all_loop,
}
use integrity_shield.Observer.Resources.Listed.{
  ListedIn, Unlisted, get_all_resources_namespaced, get_all_resources-panics_iff,
}
use integrity_shield.Observer.Verify.{observe_resources}
use integrity_shield.Observer.Verify.Reports.{AllReported, observe_resources-AllReported}
use integrity_shield.Observer.Export.{
  VerifyResourceStatusSpec, ConfigMap, empty_observer_config, result_labels, export_verify_result,
}
use integrity_shield.Observer.Export.Stored.{get-export_verify_result}
use integrity_shield.Observer.Run.{Codecs, Detail, Observed, observed, observe_constraint, run}
use integrity_shield.Observer.Run.Summary.{
  details, is_violation, status_of, observe_constraint_lem, run_unconfigured,
}
use integrity_shield.Tests.World.{
  kube, manifests, labels, dynamic, statuses, statuses-UpdateIsLawful, statuses-CreateIsLawful,
  Store, Pairs, failure, parameters, store, unmarshal, find,
}

match_pattern_iff_example : match_pattern (bytes "ab**") (bytes "abc") ≡ true
match_pattern_iff_example =
    (match_pattern_iff (bytes "ab**") (bytes "abc")).1
      (inr (inr (inr (bytes "ab", 1, bytes "c", unfold bytes in refl, unfold bytes in refl))))

abbrev rule : Rule
rule = record { match = []; exclude = bytes "c" ∷ [] }

check_if_inscope_constraint_iff_example : check_if_inscope_constraint (bytes "c") rule ≡ true
check_if_inscope_constraint_iff_example =
    (check_if_inscope_constraint_iff (bytes "c") rule).1
      (inr (bytes "c", Memᴰ.head refl, same_matches))
  where
    same_matches : match_pattern (bytes "c") (bytes "c") ≡ true
    same_matches = unfold bytes ◌==◌ match_pattern in refl

abbrev pod : ApiResource
pod = record {
  name = bytes "pods";
  kind = bytes "Pod";
  namespaced = true;
  verbs = bytes "get" ∷ [];
}

abbrev node : ApiResource
node = record {
  name = bytes "nodes";
  kind = bytes "Node";
  namespaced = false;
  verbs = bytes "get" ∷ [];
}

abbrev in_group : ApiResource → GroupResource
in_group r = record { api_group = []; api_version = bytes "v1"; api_resource = r }

-- The kind is given, but no API group.
abbrev only_services : Kinds
only_services = record { kinds = bytes "Service" ∷ []; api_groups = [] }

abbrev condition : MatchCondition Pairs
condition = record {
  kinds = only_services ∷ [];
  namespaces = bytes "ns" ∷ [];
  excluded_namespaces = [];
  label_selector = none;
  namespace_selector = none;
}

-- An entry for services reaches pods, since it has no API group.
check_if_rule_match_with_gvk_iff_example :
    (check_if_rule_match_with_gvk kube manifests labels dynamic condition (in_group pod) store).0
    ≡ true
check_if_rule_match_with_gvk_iff_example =
    ((check_if_rule_match_with_gvk_iff kube manifests labels dynamic condition store
      (in_group pod)).0
    ).1
      (only_services, Memᴰ.head refl, inl refl)

get_possible_protected_gvks_lem_example :
    FirstReached kube manifests labels dynamic condition store (in_group pod ∷ in_group node ∷ []) (
      get_possible_protected_gvks kube manifests labels dynamic
        (in_group pod ∷ in_group node ∷ [])
        condition
        store)
get_possible_protected_gvks_lem_example =
    get_possible_protected_gvks_lem kube manifests labels dynamic condition store
      (in_group pod ∷ in_group node ∷ [])

abbrev pods_of : List Str → GroupResourceWithTargetNs
pods_of namespaces = record { group_resource = in_group pod; target_namespaces = namespaces }

abbrev nodes : GroupResourceWithTargetNs
nodes = record { group_resource = in_group node; target_namespaces = [] }

get_all_resources_namespaced_example :
    (Unlisted kube manifests dynamic store
        (resource_of (in_group pod))
        (bytes "ns" ∷ bytes "gone" ∷ [])
      × (get_all_resources_by_group_resource kube manifests dynamic
            (pods_of (bytes "ns" ∷ bytes "gone" ∷ []))
            store
          ≡ returns []))
    ⊎ ((objects : List Str) × ListedIn kube manifests dynamic store
          (resource_of (in_group pod))
          (bytes "ns" ∷ bytes "gone" ∷ [])
          objects
        × (get_all_resources_by_group_resource kube manifests dynamic
              (pods_of (bytes "ns" ∷ bytes "gone" ∷ []))
              store
            ≡ returns objects))
get_all_resources_namespaced_example =
    get_all_resources_namespaced kube manifests dynamic (pods_of (bytes "ns" ∷ bytes "gone" ∷ []))
      store refl

get_all_resources-panics_iff_example :
    get_all_resources_by_group_resource kube manifests dynamic nodes store ≡ panics
get_all_resources-panics_iff_example =
    (get_all_resources-panics_iff kube manifests dynamic nodes store).1
      (refl, (failure, unfold resource_of bytes ◌==◌ in refl))

observe_resources-AllReported_example :
    AllReported kube manifests dynamic store [] []
      (bytes "signed" ∷ bytes "plain" ∷ [])
      (observe_resources kube manifests dynamic
        (bytes "now")
        (bytes "signed" ∷ bytes "plain" ∷ [])
        []
        []
        []
        store
        []).0
observe_resources-AllReported_example =
    observe_resources-AllReported kube manifests dynamic (bytes "now")
      (bytes "signed" ∷ bytes "plain" ∷ []) [] [] [] store []

abbrev status_spec : VerifyResourceStatusSpec
status_spec = record {
  constraint_name = bytes "c";
  violation = false;
  total_violations = 0;
  violations = [];
  non_violations = [];
  observation_time = bytes "now";
}

get-export_verify_result_example :
    statuses.get
      (export_verify_result kube none statuses status_spec true false store).1
      (bytes "k8s-manifest-sigstore")
      (bytes "c")
    ≡ ok (record { name = bytes "c"; labels = result_labels true false; spec = status_spec })
get-export_verify_result_example =
    get-export_verify_result kube statuses statuses-UpdateIsLawful statuses-CreateIsLawful refl
      status_spec true false store exported
  where
    exported : (export_verify_result kube none statuses status_spec true false store).0 ≡ none
    exported = unfold export_verify_result find in refl

abbrev config_maps : Client Store ConfigMap
config_maps = record {
  get = λ _ _ _. err failure;
  create = λ w _ _. (none, w);
  update = λ w _ _. (none, w);
}

abbrev spec : ConstraintSpec kube manifests labels dynamic
spec = record { match = condition; parameters = parameters }

abbrev codecs : Codecs kube manifests labels dynamic
codecs = record {
  spec_of = λ _. spec;
  unmarshal = unmarshal;
  unmarshal_observer = λ _. (none, none);
  marshal = λ _. [];
  new_status_client = none;
  statuses = statuses;
  config_maps = config_maps;
  time = bytes "now";
}

abbrev observation : Outcome (Observed kube manifests labels dynamic)
observation =
    observe_constraint kube manifests labels dynamic codecs (in_group pod ∷ [])
      (some (empty_config manifests)) empty_observer_config spec store []

abbrev both : List (Detail kube manifests labels dynamic)
both =
    (details kube manifests labels dynamic codecs (in_group pod ∷ []) (empty_config manifests)
      empty_observer_config spec store [] (bytes "signed" ∷ bytes "plain" ∷ [])).0

observe_constraint_lem_example :
    observation
    ≡ returns (
        observed
          (record {
            constraint_name = bytes "c";
            violation = any (is_violation kube manifests labels dynamic) both;
            total_violations = length (keep (is_violation kube manifests labels dynamic) both);
            results = both;
          })
          (export_verify_result kube none statuses
            (status_of kube manifests labels dynamic codecs
              (in_group pod ∷ [])
              (empty_config manifests)
              empty_observer_config
              spec
              store
              []
              both)
            (check_if_inscope_constraint (bytes "c") empty_observer_config.target_constraints)
            (any (is_violation kube manifests labels dynamic) both)
            store).1
          (details kube manifests labels dynamic codecs
            (in_group pod ∷ [])
            (empty_config manifests)
            empty_observer_config
            spec
            store
            []
            (bytes "signed" ∷ bytes "plain" ∷ [])).1)
observe_constraint_lem_example =
    observe_constraint_lem kube manifests labels dynamic codecs (in_group pod ∷ [])
      (empty_config manifests) empty_observer_config spec store []
      {gvks = pods_of (bytes "ns" ∷ []) ∷ []} {resources = bytes "signed" ∷ bytes "plain" ∷ []}
      (unfold get_possible_protected_gvks bytes in refl) (unfold get_all_loop bytes ◌==◌ in refl)

abbrev unread : Codecs kube manifests labels dynamic
unread = record codecs { unmarshal = λ _. (none, none) }

run_unconfigured_example :
    run kube manifests labels dynamic unread (in_group pod ∷ []) store [] ≡ panics
run_unconfigured_example =
    run_unconfigured kube manifests labels dynamic unread (in_group pod ∷ []) store []
      {constraint = spec} {constraints = []} (unfold load_request_handler_config bytes ◌==◌ in refl)
      (unfold load_constraints bytes ◌==◌ in refl)
