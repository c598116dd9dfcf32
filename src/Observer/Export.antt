-- ===== src/Observer/Export.antt =====
-- What the observer writes to the cluster (`exportVerifyResult`, `exportResultDetail` and
-- `loadObserverConfig` of observer/pkg/observer/observer.go, and the resources of
-- observer/pkg/apis/verifyresourcestatus/v1alpha1/types.go).
pub mod Stored
use integrity_shield.Base.{
  ℕ, Str, bytes, Bool, true, false, List, [], ◌∷◌, ◌++◌, is_empty, if◌then◌else◌, not, Option, none,
  some, Result, ok, err, Error,
}
use integrity_shield.External.Kube.{Kube, Client}
use integrity_shield.External.Sigstore.{Sigstore, VerifyResourceResult}
use integrity_shield.External.Dynamic.{Dynamic}
use integrity_shield.Server.Shield.Request.{
  or_default, pod_namespace, config_text, decoded, default_config_key_in_config_map,
}
use integrity_shield.Observer.Pattern.{Rule}
use integrity_shield.Observer.Verify.{VerifyResultDetail}

pub record VerifyResult : Type 0 where
  pub namespace : Str
  pub name : Str
  pub kind : Str
  pub api_group : Str
  pub api_version : Str
  pub result : Str
  pub signer : Str
  pub signed_time : Option ℕ
  pub sig_ref : Str

pub record VerifyResourceStatusSpec : Type 0 where
  pub constraint_name : Str
  pub violation : Bool
  pub total_violations : ℕ
  pub violations : List VerifyResult
  pub non_violations : List VerifyResult
  pub observation_time : Str

pub record VerifyResourceStatus : Type 0 where
  pub name : Str
  pub labels : List (Str × Str)
  pub spec : VerifyResourceStatusSpec

pub record ConfigMap : Type 0 where
  pub name : Str
  pub config_data : List (Str × Str)

pub record ObserverConfig : Type 0 where
  pub target_constraints : Rule
  pub export_detail_result : Bool
  pub result_detail_config_name : Str
  pub result_detail_config_key : Str

abbrev pub empty_observer_config : ObserverConfig
empty_observer_config = record {
  target_constraints = record { match = []; exclude = [] };
  export_detail_result = false;
  result_detail_config_name = [];
  result_detail_config_key = [];
}

unfoldable pub flag_text : Bool → Str
flag_text flag = if flag then bytes "true" else bytes "false"

unfoldable pub result_labels : Bool → Bool → List (Str × Str)
unfolding flag_text
result_labels ignored violated =
    (bytes "integrityshield.io/verifyResourceViolation", flag_text violated)
    ∷ (bytes "integrityshield.io/verifyResourceIgnored", flag_text ignored)
    ∷ []

module _ (K : Kube) where
  open K use {Cluster, getenv, kube_config, new_for_config}

  -- A configuration that is null is an empty one.
  unfoldable pub load_observer_config :
      (Str → Option ObserverConfig × Option Error) → Cluster → ObserverConfig × Option Error
  unfolding or_default config_text decoded
  load_observer_config unmarshal w =
      let config_name =
        or_default (getenv (bytes "OBSERVER_CONFIG_NAME")) (bytes "observer-config") in
      let config_key =
        or_default (getenv (bytes "OBSERVER_CONFIG_KEY")) default_config_key_in_config_map in
      elim kube_config [
        | some e ↦ (empty_observer_config, some e)
        | none ↦ elim new_for_config [
          | some e ↦ (empty_observer_config, some e)
          | none ↦ elim (config_text K w config_name config_key) [
            | err e ↦ (empty_observer_config, some e)
            | ok text ↦
                let (tr, e?) = decoded K (bytes "*observer.ObserverConfig") (unmarshal text) in
                elim e? [
                  | some e ↦ (empty_observer_config, some e)
                  | none ↦ elim tr [
                    | none ↦ (empty_observer_config, none)
                    | some config ↦ (config, none)
                  ]
                ]
          ]
        ]
      ]

  -- `new_status_client` is what `vrresclient.NewForConfig` fails with.
  unfoldable pub export_verify_result :
      Option Error
      → Client Cluster VerifyResourceStatus
      → VerifyResourceStatusSpec
      → Bool
      → Bool
      → Cluster
      → Option Error × Cluster
  unfolding pod_namespace result_labels
  export_verify_result new_status_client statuses vrr ignored violated w = elim kube_config [
    | some e ↦ (some e, w)
    | none ↦ elim new_status_client [
      | some e ↦ (some e, w)
      | none ↦ elim (statuses.get w (pod_namespace K) vrr.constraint_name) [
        | err _ ↦ statuses.create w (pod_namespace K) (record {
          name = vrr.constraint_name;
          labels = result_labels ignored violated;
          spec = vrr;
        })
        | ok obj ↦
            statuses.update w (pod_namespace K)
              (record obj { labels = result_labels ignored violated; spec = vrr })
      ]
    ]
  ]

  module _ (S : Sigstore Cluster) (D : Dynamic Cluster S.Object) where
    pub record ConstraintResult : Type 0 where
      pub constraint_name : Str
      pub violation : Bool
      pub total_violations : ℕ
      pub results : List (VerifyResultDetail K S D)

    -- `marshal` is the way of the results through `json.Marshal`.
    unfoldable pub export_result_detail :
        (List ConstraintResult → Str)
        → Client Cluster ConfigMap
        → List ConstraintResult
        → ObserverConfig
        → Cluster
        → Option Error × Cluster
    unfolding or_default pod_namespace
    export_result_detail marshal config_maps results oconfig w =
        let config_name =
          or_default oconfig.result_detail_config_name (bytes "verify-result-detail") in
        let config_key =
          or_default oconfig.result_detail_config_key default_config_key_in_config_map in
        let config_data = (config_key, marshal results) ∷ [] in
        if not oconfig.export_detail_result
        then (none, w)
        else if is_empty results
        then (none, w)
        else elim kube_config [
          | some _ ↦ (none, w)
          | none ↦ elim new_for_config [
            | some _ ↦ (none, w)
            | none ↦ elim (config_maps.get w (pod_namespace K) config_name) [
              | err _ ↦
                  config_maps.create w (pod_namespace K)
                    (record { name = config_name; config_data = config_data })
              | ok cm ↦
                  config_maps.update w (pod_namespace K) (record cm { config_data = config_data })
            ]
          ]
        ]
