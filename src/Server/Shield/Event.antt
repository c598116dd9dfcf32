-- ===== src/Server/Shield/Event.antt =====
-- `createOrUpdateEvent` of integrity-shield-server/pkg/shield/request_handler.go: the event that
-- records a denied request.
pub mod Records
use integrity_shield.Base.{
  ℕ, ◌+◌, ◌-◌, ◌%◌, ◌^◌, Str, bytes, Bool, true, false, List, [], ◌∷◌, ◌++◌, is_empty, length, take,
  Option, none, some, Error, Result, ok, err, if◌then◌else◌, ltb, map, ◌&&◌,
}
use integrity_shield.External.Kube.{Kube, Client}
use integrity_shield.Server.Shield.Request.{
  Request, ResultFromRequestHandler, GroupVersionKind, pod_namespace, or_default,
}

pub record ObjectRef : Type 0 where
  pub namespace : Str
  pub api_version : Str
  pub kind : Str
  pub name : Str

-- `corev1.Event`. `count` is the bit pattern of an int32.
pub record Event : Type 0 where
  pub name : Str
  pub namespace : Str
  pub annotations : List (Str × Str)
  pub involved_object : ObjectRef
  pub event_type : Str
  pub source_component : Str
  pub reporting_controller : Str
  pub reporting_instance : Str
  pub action : Str
  pub reason : Str
  pub message : Str
  pub first_timestamp : ℕ
  pub last_timestamp : ℕ
  pub event_time : ℕ
  pub count : ℕ

-- `strings.ToLower`, on ASCII.
unfoldable pub lower_byte : ℕ → ℕ
lower_byte c = if ltb c b'A' then c else if ltb b'Z' c then c else c + 32

unfoldable pub to_lower : Str → Str
unfolding lower_byte
to_lower s = map lower_byte s

-- `schema.GroupVersion.String` puts a slash between a group and a version.
unfoldable pub event_name : Request → Str
unfolding to_lower
event_name req =
    bytes "ishield-deny-"
    ++ (to_lower req.operation
        ++ (bytes "-" ++ (to_lower req.kind.kind ++ (bytes "-" ++ req.name))))

abbrev pub trimmed_suffix : Str
trimmed_suffix = bytes " ... Trimmed. `Event.Message` can have 1024 chars at maximum."

unfoldable pub event_message : Str → Str → Str
event_message constraint_name message =
    let tmp = bytes "[" ++ (constraint_name ++ (bytes "]" ++ message)) in
    if ltb 1024 (length tmp) then take 950 tmp ++ trimmed_suffix else tmp

module _ (K : Kube) where
  unfoldable pub event_namespace : Request → Str
  unfolding or_default
  event_namespace req = or_default req.namespace (pod_namespace K)

  unfoldable pub filled_event : Event → Str → Str → Event
  filled_event evt constraint_name message = record evt {
    message = event_message constraint_name message;
    count = (evt.count + 1) % 2 ^ 32;
    event_time = K.now;
    last_timestamp = K.now;
  }

module _ (K : Kube) (group_version : Str → Str → Str) where
  -- The event before its message and count are set.
  unfoldable pub new_event : Request → Event
  unfolding event_namespace event_name
  new_event req =
      let source_name = bytes "IntegrityShield" in
      record {
        name = event_name req;
        namespace = event_namespace K req;
        annotations =
            (bytes "integrityshield.io/eventType", bytes "verify-result")
            ∷ (bytes "integrityshield.io/eventResult", bytes "deny")
            ∷ [];
        involved_object = record {
          namespace = req.namespace;
          api_version = group_version req.kind.group req.kind.version;
          kind = req.kind.kind;
          name = req.name;
        };
        event_type = source_name;
        source_component = source_name;
        reporting_controller = source_name;
        reporting_instance = event_name req;
        action = event_name req;
        reason = bytes "Deny";
        message = [];
        first_timestamp = K.now;
        last_timestamp = 0;
        event_time = 0;
        count = 0;
      }

module _ (K : Kube) (group_version : Str → Str → Str) (events : Client K.Cluster Event) where
  open K use {Cluster, kube_config, new_for_config}

  -- The error is dropped by the callers.
  unfoldable pub create_or_update_event :
      Request → ResultFromRequestHandler → Str → Cluster → Option Error × Cluster
  unfolding new_event filled_event
  create_or_update_event req ar constraint_name w =
      if ar.allow then (none, w) else elim kube_config [
        | some e ↦ (some e, w)
        | none ↦ elim new_for_config [
          | some e ↦ (some e, w)
          | none ↦ elim (events.get w (event_namespace K req) (event_name req)) [
            | ok current ↦
                events.update w (event_namespace K req)
                  (filled_event K current constraint_name ar.message)
            | err _ ↦
                events.create w (event_namespace K req)
                  (filled_event K (new_event K group_version req) constraint_name ar.message)
          ]
        ]
      ]
