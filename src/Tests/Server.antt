-- ===== src/Tests/Server.antt =====
-- Requests to the server, and its theorems at concrete inputs.
use integrity_shield.Base.{
  ◌≤◌, Str, bytes, ◌==◌, ◌≡◌, refl, true, false, List, [], ◌∷◌, ◌++◌, length, take, ok, any, keep,
}
use integrity_shield.Server.Parameter.{
  ParameterObjectOf, ObjectUserBindingOf, binding_list_match, binding_match,
}
use integrity_shield.Server.Parameter.Bindings.{Binds, binding_list_match_iff}
use integrity_shield.Server.Config.{RequestHandlerConfig, load_key_secret, key_dir}
use integrity_shield.Server.Config.Keys.{FirstSaved, load_key_secret_iff}
use integrity_shield.Server.Shield.Request.{
  Request, ResultFromRequestHandler, State, load_request_handler_config,
}
use integrity_shield.Server.Shield.Mutation.{mutation_check, skip_objects_match}
use integrity_shield.Server.Shield.Mutation.Differences.{Differs, mutation_check_iff}
use integrity_shield.Server.Shield.VerifyOption.{set_verify_option}
use integrity_shield.Server.Shield.VerifyOption.Fields.{
  set_verify_option_missing, set_verify_option_twice,
}
use integrity_shield.Server.Shield.Event.{
  Event, event_message, event_name, event_namespace, create_or_update_event,
}
use integrity_shield.Server.Shield.Event.Records.{event_message_bounds, create_or_update_event-get}
use integrity_shield.Server.Shield.Handler.{Handled, request_handler, verification_answer}
use integrity_shield.Server.Shield.Handler.Reasons.{Admitted}
use integrity_shield.Server.Shield.Handler.Admits.{request_handler_iff}
use integrity_shield.Server.Shield.Handler.Unchanged.{request_handler-cluster}
use integrity_shield.Tests.World.{
  kube, manifests, events, events-UpdateIsLawful, Store, find_event, failure, unmarshal,
  group_version, parameters, create, update, before, store, config,
}

-- The handler over the cluster in memory.
unfoldable pub handle : Request → ParameterObjectOf Str Str → State kube → Handled kube manifests
unfolding request_handler bytes ◌==◌ load_request_handler_config set_verify_option
    binding_list_match any skip_objects_match verification_answer mutation_check keep
    create_or_update_event event_message find_event
handle = request_handler kube manifests unmarshal group_version events

-- A signed object is created.
pub signed_allowed : (handle (create (bytes "signed")) parameters before).result.allow ≡ true
unfolding handle
signed_allowed = refl

-- One that is not signed is denied, and an event is recorded.
unsigned_denied : (handle (create (bytes "plain")) parameters before).result.allow ≡ false
unfolding handle
unsigned_denied = refl

unsigned_event : length (handle (create (bytes "plain")) parameters before).state.cluster.events ≡ 1
unfolding handle
unsigned_event = refl

-- An update that changes nothing passes.
unchanged_allowed :
    (handle (update (bytes "plain") (bytes "plain")) parameters before).result.message
    ≡ bytes "no mutation found"
unfolding handle
unchanged_allowed = refl

request_handler_iff_example :
    Admitted kube manifests unmarshal (create (bytes "signed")) parameters before
request_handler_iff_example =
    (request_handler_iff kube manifests unmarshal group_version events (create (bytes "signed"))
        parameters before).0
      (unfold handle in signed_allowed)

request_handler-cluster_example :
    (request_handler kube manifests unmarshal group_version events
      (create (bytes "signed"))
      parameters
      before).state.cluster
    ≡ store
request_handler-cluster_example =
    request_handler-cluster kube manifests unmarshal group_version events (create (bytes "signed"))
      parameters before (unfold handle in signed_allowed)

event_message_bounds_example :
    (length (event_message (bytes "c") (bytes "denied")) ≤ 1024)
    × (take 950 (event_message (bytes "c") (bytes "denied"))
        ≡ take 950 (bytes "[" ++ (bytes "c" ++ (bytes "]" ++ bytes "denied"))))
event_message_bounds_example = event_message_bounds (bytes "c") (bytes "denied")

abbrev denial : ResultFromRequestHandler
denial = record { allow = false; message = bytes "denied"; profile = [] }

mutation_check_iff_example : Differs manifests (bytes "a") (bytes "b") []
mutation_check_iff_example =
    (mutation_check_iff manifests (bytes "a") (bytes "b") [] {old = bytes "a"} {v = bytes "b"}
        (unfold bytes in refl) (unfold bytes in refl)).0
      mutated_update
  where
    mutated_update : mutation_check manifests (bytes "a") (bytes "b") [] ≡ ok true
    mutated_update = unfold bytes mutation_check ◌==◌ any keep in refl

-- The key file that the secret `s` has is written.
abbrev saved : List (Str × Str)
saved = (bytes "/tmp/ns/s/key.pub", bytes "K") ∷ []

load_key_secret_iff_example :
    (key_data : List (Str × Str)) × (kube.secret store (bytes "ns") (bytes "s") ≡ ok key_data)
    × FirstSaved kube
        (key_dir (bytes "ns") (bytes "s"))
        (bytes "/tmp/ns/s/key.pub")
        saved
        key_data
        []
load_key_secret_iff_example =
    (load_key_secret_iff kube (bytes "ns") (bytes "s") store [] (bytes "/tmp/ns/s/key.pub") saved).0
      (unfold load_key_secret bytes ◌==◌ in refl)

abbrev configured : ParameterObjectOf Str Str
configured = record parameters {
  key_configs =
      record { key_secret_name = bytes "gone"; key_secret_namespace = bytes "ns" }
      ∷ record { key_secret_name = bytes "gone"; key_secret_namespace = bytes "ns" }
      ∷ [];
}

-- Two secrets that cannot be read leave a comma for a key path.
set_verify_option_missing_example :
    (set_verify_option kube manifests configured config [] store
      []).0.verify_resource_option.key_path
    ≡ bytes ","
unfolding bytes ◌==◌
set_verify_option_missing_example =
    set_verify_option_missing kube manifests store [] configured config []
      (((λ e. cc), (failure, refl)), (((λ e. cc), (failure, refl)), tt))

-- The parameters with the configuration's field, which a second call adds again.
abbrev ignoring : RequestHandlerConfig manifests
ignoring = record config {
  request_filter_profile = record {
    skip_objects = [];
    skip_users = [];
    ignore_fields = bytes "f" ∷ [];
  };
}

set_verify_option_twice_example :
    (set_verify_option kube manifests
      (set_verify_option kube manifests parameters ignoring [] store []).0
      ignoring
      []
      store
      []).0.verify_resource_option.ignore_fields
    ≡ bytes "f" ∷ bytes "f" ∷ []
set_verify_option_twice_example =
    set_verify_option_twice kube manifests store [] parameters ignoring [] []

abbrev users : List (ObjectUserBindingOf Str)
users = record { objects = []; users = bytes "u" ∷ [] } ∷ []

binding_list_match_iff_example : Binds manifests users (bytes "o") (bytes "u")
binding_list_match_iff_example =
    (binding_list_match_iff manifests users (bytes "o") (bytes "u")).0
      (unfold binding_list_match binding_match any bytes ◌==◌ in refl)

-- The event of an earlier denial.
abbrev earlier : Event
earlier = record {
  name = event_name (create (bytes "plain"));
  namespace = bytes "ns";
  annotations = [];
  involved_object = record { namespace = []; api_version = []; kind = []; name = [] };
  event_type = [];
  source_component = [];
  reporting_controller = [];
  reporting_instance = [];
  action = [];
  reason = [];
  message = bytes "old";
  first_timestamp = 1;
  last_timestamp = 1;
  event_time = 1;
  count = 4;
}

abbrev recorded_store : Store
recorded_store = record store { events = (bytes "ns", earlier) ∷ [] }

create_or_update_event-get_example :
    let w =
      (create_or_update_event kube group_version events
        (create (bytes "plain"))
        denial
        (bytes "c")
        recorded_store).1 in
    events.get w
      (event_namespace kube (create (bytes "plain")))
      (event_name (create (bytes "plain")))
    ≡ ok (record earlier {
      message = event_message (bytes "c") (bytes "denied");
      count = 5;
      event_time = 7;
      last_timestamp = 7;
    })
create_or_update_event-get_example =
    create_or_update_event-get kube group_version events (create (bytes "plain")) denial (bytes "c")
      recorded_store events-UpdateIsLawful refl {old = earlier}
      (unfold find_event ◌==◌ bytes event_name event_namespace in refl)
      (unfold create_or_update_event find_event ◌==◌ bytes event_name event_namespace in refl)
