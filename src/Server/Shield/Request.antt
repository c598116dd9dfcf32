-- ===== src/Server/Shield/Request.antt =====
-- What goes through `RequestHandler` of integrity-shield-server/pkg/shield/request_handler.go: the
-- request, the answer and the state, and how the configuration is loaded.
use integrity_shield.Base.{
  Str, bytes, ◌==◌, Bool, List, [], ◌∷◌, ◌++◌, is_empty, Option, none, some, Error, Result, ok, err,
  if◌then◌else◌,
}
use integrity_shield.External.Kube.{Kube}
use integrity_shield.External.Sigstore.{Sigstore}
use integrity_shield.Server.Config.{Logger, RequestHandlerConfig}

pub record GroupVersionKind : Type 0 where
  pub group : Str
  pub version : Str
  pub kind : Str

-- The fields of `admission.Request` that the program reads.
pub record Request : Type 0 where
  pub namespace : Str
  pub name : Str
  pub kind : GroupVersionKind
  pub operation : Str
  pub user_name : Str
  pub object_raw : Str
  pub old_object_raw : Str

pub record ResultFromRequestHandler : Type 0 where
  pub allow : Bool
  pub message : Str
  pub profile : Str

abbrev pub default_pod_namespace : Str
default_pod_namespace = bytes "k8s-manifest-sigstore"

abbrev pub default_handler_config_map_name : Str
default_handler_config_map_name = bytes "request-handler-config"

abbrev pub default_config_key_in_config_map : Str
default_config_key_in_config_map = bytes "config.yaml"

unfoldable pub is_update_request : Str → Bool
is_update_request operation = operation == bytes "UPDATE"

-- A variable of the environment, or a default where it is empty.
unfoldable pub or_default : Str → Str → Str
or_default value default = if is_empty value then default else value

-- An entry of the data of a ConfigMap.
unfoldable pub find_key : Str → List (Str × Str) → Option Str
find_key k [] = none
find_key k ((j, v) ∷ rest) = if j == k then some v else find_key k rest

-- The state that the handler changes: the logger of the process, its files, and the cluster.
pub record State (K : Kube) : Type 0 where
  pub logger : Logger
  pub files : K.Files
  pub cluster : K.Cluster

module _ (K : Kube) where
  open K use {Cluster, getenv, kube_config, new_for_config, config_map, wrap, new_error}

  unfoldable pub pod_namespace : Str
  unfolding or_default
  pod_namespace = or_default (getenv (bytes "POD_NAMESPACE")) default_pod_namespace

  -- The text under a key of a ConfigMap of the pod's namespace.
  unfoldable pub config_text : Cluster → Str → Str → Result Str
  unfolding find_key pod_namespace
  config_text w config_name config_key = elim (config_map w pod_namespace config_name) [
    | err e ↦ err (
        wrap e (
          bytes "failed to get a configmap `"
          ++ (config_name ++ (bytes "` in `" ++ (pod_namespace ++ bytes "` namespace")))))
    | ok cm ↦ elim (find_key config_key cm) [
      | none ↦ err (new_error (bytes "`" ++ (config_key ++ bytes "` is not found in configmap")))
      | some text ↦ ok text
    ]
  ]

  -- The wrapping of the error that `yaml.Unmarshal` may give; the value is handed on beside it.
  unfoldable pub decoded {ℓ} :
      {A : Type ℓ} → Str → Option A × Option Error → Option A × Option Error
  decoded type_name (sc, none) = (sc, none)
  decoded type_name (sc, some e) =
      (sc, some (wrap e (bytes "failed to unmarshal config.yaml into " ++ type_name)))

  module _ (S : Sigstore Cluster)
      (unmarshal : Str → Option (RequestHandlerConfig S) × Option Error) where
    -- A configuration that is `none` is a nil pointer.
    unfoldable pub load_request_handler_config :
        Cluster → Option (RequestHandlerConfig S) × Option Error
    unfolding or_default config_text decoded
    load_request_handler_config w =
        let config_name =
          or_default (getenv (bytes "REQUEST_HANDLER_CONFIG_NAME"))
            default_handler_config_map_name in
        let config_key =
          or_default (getenv (bytes "REQUEST_HANDLER_CONFIG_KEY"))
            default_config_key_in_config_map in
        elim kube_config [
          | some _ ↦ (none, none)
          | none ↦ elim new_for_config [
            | some _ ↦ (none, none)
            | none ↦ elim (config_text w config_name config_key) [
              | err e ↦ (none, some e)
              | ok text ↦ decoded (bytes "*config.RequestHandlerConfig") (unmarshal text)
            ]
          ]
        ]
