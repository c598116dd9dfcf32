-- ===== src/Tests/World.antt =====
-- A small cluster in memory, and manifests that are plain texts: concrete values of the interfaces.
use integrity_shield.Base.{
  Str, bytes, ◌==◌, ==_iff, ==_refl, ◌≡◌, ap, Bool, true, false, not, List, [], ◌∷◌, ◌++◌, is_empty,
  length, any, keep, Option, none, some, Result, ok, err, Error, other, if◌then◌else◌, arith,
}
use integrity_shield.External.Kube.{Kube, Client, UpdateIsLawful, CreateIsLawful}
use integrity_shield.External.Sigstore.{Sigstore}
use integrity_shield.External.Labels.{Labels}
use integrity_shield.Server.Parameter.{ParameterObjectOf}
use integrity_shield.Server.Config.{RequestHandlerConfig, empty_config, info}
use integrity_shield.Server.Shield.Request.{Request, State}
use integrity_shield.Server.Shield.Event.{Event}
use integrity_shield.Admission.Profile.{ManifestIntegrityProfileOf}
use integrity_shield.External.Dynamic.{Dynamic}
use integrity_shield.Observer.Export.{VerifyResourceStatus}

abbrev pub Pairs : Type 0
Pairs = List (Str × Str)

abbrev pub StoredProfile : Type 0
StoredProfile = ManifestIntegrityProfileOf (ParameterObjectOf Str Str) Pairs

pub record Store : Type 0 where
  pub events : List (Str × Event)
  pub profiles : List StoredProfile
  pub statuses : List VerifyResourceStatus

abbrev pub failure : Error
failure = record { reason = other; message = bytes "no such object" }

-- The first element that passes.
unfoldable pub find : {A : Type 0} → (A → Bool) → List A → Result A
find p [] = err failure
find p (x ∷ xs) = if p x then ok x else find p xs

find-ok : {A : Type 0} (p : A → Bool) (xs : List A) {a : A} → find p xs ≡ ok a → p a ≡ true
unfolding find
find-ok p [] h = ground arith
find-ok p (x ∷ xs) {a} h = ground (arith, find-ok p xs {a = a}, ap p)

-- The reading of a secret fails for the name "gone".
-- What a node stands for.
abbrev pub text_of : Option Str → Str
text_of none = []
text_of (some s) = s

abbrev pub demo_secret : Str → Result Pairs
demo_secret name =
    if name == bytes "gone" then err failure else ok ((bytes "key.pub", bytes "K") ∷ [])

abbrev pub kube : Kube
kube = record {
  Cluster = Store;
  Files = Pairs;
  getenv = λ _. [];
  now = 7;
  kube_config = none;
  new_for_config = none;
  config_map = λ _ _ _. ok ((bytes "config.yaml", bytes "{}") ∷ []);
  secret = λ _ _ name. demo_secret name;
  mkdir_all = λ files _. files;
  write_file = λ files path text. (none, (path, text) ∷ files);
  wrap = λ e _. e;
  new_error = λ m. record { reason = other; message = m };
}

-- The same without a configuration of the client.
abbrev pub unconfigured : Kube
unconfigured = record kube { kube_config = some failure }

abbrev pub covers : Str → Str → Bool
covers pattern value = if pattern == bytes "*" then true else pattern == value

-- A resource is a text; it is signed if it reads "signed".
abbrev pub manifests : Sigstore Store
manifests = record {
  Object = Str;
  ObjectReference = Str;
  ObjectFieldBinding = Str;
  Node = Str;
  NodeMap = Str;
  DiffResult = Pairs;
  unmarshal_object = λ raw. if is_empty raw then err failure else ok raw;
  annotations = λ _. [];
  reference_match = λ r o. covers r o;
  reference_list_match = λ l o. if is_empty l then true else any (λ r. covers r o) l;
  field_list_match = λ l o. (true, l);
  match_pattern = covers;
  match_single_pattern = covers;
  match_with_pattern_array = λ v l. any (λ p. covers p v) l;
  new_from_bytes = λ raw. if is_empty raw then err failure else ok (some raw);
  mask = λ n _. n;
  to_map = λ n. n;
  new_from_map = λ n. some n;
  diff = λ a b. if text_of a == text_of b then none else some ((text_of a, text_of b) ∷ []);
  diff_size = λ d. length d;
  diff_string = λ _. [];
  unfiltered = λ d fields. keep (λ p. not (any (λ f. f == p.1) fields)) d;
  verify_resource = λ _ o vo. ok (record {
    in_scope = true;
    verified = o == bytes "signed";
    signer = [];
    sig_ref = [];
    signed_time = none;
    diff = none;
  });
}

abbrev pub labels : Labels Store Str
labels = record {
  LabelSelector = Pairs;
  Selector = Pairs;
  as_selector = λ l. ok l;
  matches = λ s l. true;
  object_labels = λ _. [];
  namespace_labels = λ _ _. ok [];
  list_namespaces = λ _. ok [];
}

abbrev at : {A : Type 0} → (A → Str) → Str → A → Bool
at name n a = name a == n

abbrev pub profile_client : Client Store StoredProfile
profile_client = record {
  get = λ w _ n. find (at ManifestIntegrityProfileOf.name n) w.profiles;
  create = λ w _ r. (none, record w { profiles = r ∷ w.profiles });
  update = λ w _ r. (none, record w { profiles = r ∷ w.profiles });
}

pub profile_client-UpdateIsLawful : UpdateIsLawful ManifestIntegrityProfileOf.name profile_client
unfolding find
profile_client-UpdateIsLawful = record {
  name-get = λ w _ n {r} h.
      (==_iff r.name n).0 (find-ok (at ManifestIntegrityProfileOf.name n) w.profiles h);
  get-update = λ w _ r _. ground (arith, ==_refl (r.name));
  get-update_ne = λ w _ other r differ. ground (arith, ==_iff (r.name) other);
}

-- Events by namespace and name.
unfoldable pub find_event : Str → Str → List (Str × Event) → Result Event
find_event ns n [] = err failure
find_event ns n ((m, e) ∷ rest) =
    if m == ns then (if e.name == n then ok e else find_event ns n rest) else find_event ns n rest

find_event-ok :
    (ns n : Str) (l : List (Str × Event)) {e : Event} → find_event ns n l ≡ ok e → e.name ≡ n
unfolding find_event
find_event-ok ns n [] h = ground arith
find_event-ok ns n ((m, x) ∷ rest) {e} h =
    ground (arith, ==_iff (x.name) n, find_event-ok ns n rest {e = e})

abbrev pub events : Client Store Event
events = record {
  get = λ w ns n. find_event ns n w.events;
  create = λ w ns e. (none, record w { events = (ns, e) ∷ w.events });
  update = λ w ns e. (none, record w { events = (ns, e) ∷ w.events });
}

pub events-UpdateIsLawful : UpdateIsLawful Event.name events
unfolding find_event
events-UpdateIsLawful = record {
  name-get = λ w ns n {r} h. find_event-ok ns n w.events h;
  get-update = λ w ns r _. ground (arith, ==_refl ns, ==_refl (r.name));
  get-update_ne = λ w ns other r differ. ground (arith, ==_iff (r.name) other, ==_refl ns);
}

-- A configuration that asks for events.
abbrev pub config : RequestHandlerConfig manifests
config = record (empty_config manifests) {
  side_effect_config = record { create_deny_event = true };
}

abbrev pub unmarshal : Str → Option (RequestHandlerConfig manifests) × Option Error
unmarshal _ = (some config, none)

abbrev pub group_version : Str → Str → Str
group_version group version = group ++ (bytes "/" ++ version)

abbrev pub parameters : ParameterObjectOf Str Str
parameters = record {
  verify_resource_option = record {
    check_dry_run_for_apply = false;
    provenance = false;
    image_ref = [];
    dry_run_namespace = [];
    annotation_key_domain = [];
    key_path = [];
    ignore_fields = [];
  };
  key_configs = [];
  image_ref = [];
  in_scope_objects = [];
  skip_users = [];
  target_service_account = [];
  constraint_name = bytes "c";
}

abbrev pub create : Str → Request
create raw = record {
  namespace = bytes "ns";
  name = bytes "n";
  kind = record { group = []; version = bytes "v1"; kind = bytes "Pod" };
  operation = bytes "CREATE";
  user_name = bytes "u";
  object_raw = raw;
  old_object_raw = [];
}

abbrev pub update : Str → Str → Request
update old raw = record (create raw) { operation = bytes "UPDATE"; old_object_raw = old }

abbrev pub store : Store
store = record { events = []; profiles = []; statuses = [] }

abbrev pub before : State kube
before = record {
  logger = record { k8s_log_level = []; level = info; json_format = false };
  files = [];
  cluster = store;
}

-- Objects of one kind; the namespace "gone" cannot be listed, and nothing can be listed in all
-- namespaces but the one constraint.
abbrev pub dynamic : Dynamic Store Str
dynamic = record {
  new_for_config = none;
  new_discovery_client = none;
  server_preferred_resources = λ _. ok [];
  parse_group_version = λ s. ok ([], s);
  list = λ _ g.
      if g.group == bytes "constraints.gatekeeper.sh" then ok (bytes "c" ∷ []) else err failure;
  list_namespace = λ _ _ ns.
      if ns == bytes "gone" then err failure else ok (bytes "signed" ∷ bytes "plain" ∷ []);
  kind = λ _. bytes "Pod";
  group = λ _. [];
  version = λ _. bytes "v1";
  name = λ o. o;
  namespace = λ _. bytes "ns";
}

abbrev pub statuses : Client Store VerifyResourceStatus
statuses = record {
  get = λ w _ n. find (at VerifyResourceStatus.name n) w.statuses;
  create = λ w _ r. (none, record w { statuses = r ∷ w.statuses });
  update = λ w _ r. (none, record w { statuses = r ∷ w.statuses });
}

pub statuses-UpdateIsLawful : UpdateIsLawful VerifyResourceStatus.name statuses
unfolding find
statuses-UpdateIsLawful = record {
  name-get =
      λ w _ n {r} h. (==_iff r.name n).0 (find-ok (at VerifyResourceStatus.name n) w.statuses h);
  get-update = λ w _ r _. ground (arith, ==_refl (r.name));
  get-update_ne = λ w _ other r differ. ground (arith, ==_iff (r.name) other);
}

pub statuses-CreateIsLawful : CreateIsLawful VerifyResourceStatus.name statuses
unfolding find
statuses-CreateIsLawful = record { get-create = λ w _ r _. ground (arith, ==_refl (r.name)) }
