-- ===== src/Observer/Resources.antt =====
-- The listing of resources and of the kinds of resources (observer/pkg/observer/observer.go), and
-- the observer's `Init`.
pub mod Listed
use integrity_shield.Base.{
  Str, bytes, ◌==◌, Bool, true, false, List, [], ◌∷◌, ◌++◌, map, is_empty, not, if◌then◌else◌, keep,
  Option, none, some, Result, ok, err, Error, Outcome, returns, panics,
}
use integrity_shield.External.Kube.{Kube}
use integrity_shield.External.Sigstore.{Sigstore}
use integrity_shield.External.Dynamic.{ApiResource, ApiResourceList, GroupVersionResource, Dynamic}
use integrity_shield.Server.Config.{Logger, Level, log_level_map, level_or_info}
use integrity_shield.Server.Shield.Request.{or_default}
use integrity_shield.Observer.Constraint.{GroupResource, GroupResourceWithTargetNs}

unfoldable pub has_verbs : ApiResource → Bool
has_verbs resource = not (is_empty resource.verbs)

unfoldable pub resource_of : GroupResource → GroupVersionResource
resource_of g = record {
  group = g.api_group;
  version = g.api_version;
  resource = g.api_resource.name;
}

module _ (K : Kube) (S : Sigstore K.Cluster) (D : Dynamic K.Cluster S.Object) where
  open K use {Cluster, getenv, kube_config}
  open S use {Object}
  open D use {new_for_config, new_discovery_client, server_preferred_resources}
  open D use {parse_group_version, list, list_namespace}

  -- The loops over the lists of resources. Those without verbs are left out, and so are the lists
  -- whose version cannot be parsed.
  unfoldable pub api_resources_loop : List ApiResourceList → List GroupResource
  unfolding has_verbs
  api_resources_loop [] = []
  api_resources_loop (l ∷ rest) =
      let later = api_resources_loop rest in
      if is_empty l.api_resources then later else elim (parse_group_version l.group_version) [
        | err _ ↦ later
        | ok gv ↦
            map
              (λ (r : ApiResource). record {
                api_group = gv.0;
                api_version = gv.1;
                api_resource = r;
              })
              (keep has_verbs l.api_resources)
            ++ later
      ]

  unfoldable pub get_api_resources : Cluster → Result (List GroupResource)
  unfolding api_resources_loop
  get_api_resources w = elim new_discovery_client [
    | some e ↦ err e
    | none ↦ elim (server_preferred_resources w) [
      | err e ↦ err e
      | ok lists ↦ ok (api_resources_loop lists)
    ]
  ]

  -- The end of `Init`, from the environment.
  unfoldable pub init_logger : Logger → Logger
  unfolding or_default level_or_info log_level_map
  init_logger logger =
      let level = or_default (getenv (bytes "LOG_LEVEL")) (bytes "info") in
      record {
        k8s_log_level = level;
        level = level_or_info (log_level_map level);
        json_format =
            if getenv (bytes "LOG_FORMAT") == bytes "json" then true else logger.json_format;
      }

  -- The resources that the observer keeps, and the logger. The error of `GetKubeConfig` is
  -- dropped, and the client is then made of a nil configuration.
  unfoldable pub init : Cluster → Logger → Outcome (Result (List GroupResource × Logger))
  unfolding get_api_resources init_logger
  init w logger = elim kube_config [
    | some _ ↦ panics
    | none ↦ elim (get_api_resources w) [
      | err e ↦ returns (err e)
      | ok resources ↦ elim new_for_config [
        | some e ↦ returns (err e)
        | none ↦ returns (ok (resources, init_logger logger))
      ]
    ]
  ]

  -- The loop over the namespaces, which an error ends.
  unfoldable pub namespaces_loop :
      GroupVersionResource → List Str → List Object → Cluster → Result (List Object)
  namespaces_loop gvr [] resources w = ok resources
  namespaces_loop gvr (ns ∷ rest) resources w = elim (list_namespace w gvr ns) [
    | err e ↦ err e
    | ok items ↦ namespaces_loop gvr rest (resources ++ items) w
  ]

  -- An error gives an empty list; a list that the client does not return is a nil pointer, which
  -- is used in the branch without namespaces.
  unfoldable pub get_all_resources_by_group_resource :
      GroupResourceWithTargetNs → Cluster → Outcome (List Object)
  unfolding namespaces_loop resource_of
  get_all_resources_by_group_resource g w =
      if g.group_resource.api_resource.namespaced
      then elim (namespaces_loop (resource_of g.group_resource) g.target_namespaces [] w) [
        | err _ ↦ returns []
        | ok resources ↦ returns resources
      ]
      else elim (list w (resource_of g.group_resource)) [
        | err _ ↦ panics
        | ok items ↦ returns items
      ]

  -- The loop over the protected resources.
  unfoldable pub get_all_loop : List GroupResourceWithTargetNs → Cluster → Outcome (List Object)
  unfolding get_all_resources_by_group_resource
  get_all_loop [] w = returns []
  get_all_loop (g ∷ rest) w =
      let later = get_all_loop rest w in
      elim (get_all_resources_by_group_resource g w) [
        | panics ↦ panics
        | returns items ↦ elim later [ panics ↦ panics | returns more ↦ returns (items ++ more) ]
      ]
