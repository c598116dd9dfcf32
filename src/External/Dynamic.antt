-- ===== src/External/Dynamic.antt =====
-- The dynamic and the discovery client of client-go, and what they list.
use integrity_shield.Base.{Str, Bool, List, Option, Error, Result}

-- The fields of `metav1.APIResource` that the observer reads.
pub record ApiResource : Type 0 where
  pub name : Str
  pub kind : Str
  pub namespaced : Bool
  pub verbs : List Str

pub record ApiResourceList : Type 0 where
  pub group_version : Str
  pub api_resources : List ApiResource

pub record GroupVersionResource : Type 0 where
  pub group : Str
  pub version : Str
  pub resource : Str

pub record Dynamic (Cluster : Type 0) (Object : Type 0) : Type 0 where
  -- `dynamic.NewForConfig` and `discovery.NewDiscoveryClientForConfig`
  pub new_for_config : Option Error
  pub new_discovery_client : Option Error
  pub server_preferred_resources : Cluster → Result (List ApiResourceList)
  -- the group and the version of a text such as `apps/v1`
  pub parse_group_version : Str → Result (Str × Str)
  -- the lists of all namespaces and of one
  pub list : Cluster → GroupVersionResource → Result (List Object)
  pub list_namespace : Cluster → GroupVersionResource → Str → Result (List Object)
  pub kind : Object → Str
  pub group : Object → Str
  pub version : Object → Str
  pub name : Object → Str
  pub namespace : Object → Str
