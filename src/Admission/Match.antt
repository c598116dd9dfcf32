-- ===== src/Admission/Match.antt =====
-- The match check of admission-controller/pkg/controller/constraint.go.
pub mod Applies
use integrity_shield.Base.{
  Str, Bool, true, false, List, [], ◌∷◌, is_empty, if◌then◌else◌, ◌&&◌, any, flag_loop, Option,
  none, some, Result, ok, err,
}
use integrity_shield.External.Kube.{Kube}
use integrity_shield.External.Sigstore.{Sigstore}
use integrity_shield.External.Labels.{Labels}
use integrity_shield.Server.Shield.Request.{Request}
use integrity_shield.Admission.Profile.{Kinds, MatchCondition}

module _ {Cluster : Type 0} (S : Sigstore Cluster) where
  open S use {match_pattern}

  unfoldable pub check_namespace_match : Request → List Str → Bool
  unfolding flag_loop
  check_namespace_match req match =
      if is_empty match
      then true
      else flag_loop (λ ns. match_pattern ns req.namespace)
          (if is_empty req.namespace then true else false) match

  -- A list of patterns that is empty matches everything.
  unfoldable pub patterns_match : List Str → Str → Bool
  unfolding flag_loop
  patterns_match patterns value =
      if is_empty patterns then true else flag_loop (λ p. match_pattern p value) false patterns

  unfoldable pub kinds_match : Request → Kinds → Bool
  kinds_match req kinds =
      let kind = patterns_match kinds.kinds req.kind.kind in
      let group = patterns_match kinds.api_groups req.kind.group in kind && group

  unfoldable pub check_kind_match : Request → List Kinds → Bool
  unfolding kinds_match patterns_match
  check_kind_match req match =
      if is_empty match then true else flag_loop (kinds_match req) false match

module _ (K : Kube) (S : Sigstore K.Cluster) (L : Labels K.Cluster S.Object) where
  open K use {Cluster, kube_config, new_for_config}
  open S use {match_pattern, unmarshal_object}
  open L use {LabelSelector, as_selector, matches, object_labels, namespace_labels}

  unfoldable pub selector_matches : LabelSelector → List (Str × Str) → Bool
  selector_matches label_selector labels = elim (as_selector label_selector) [
    | err _ ↦ false
    | ok selector ↦ matches selector labels
  ]

  unfoldable pub check_namespace_label_match : Cluster → Str → Option LabelSelector → Bool
  unfolding selector_matches
  check_namespace_label_match w namespace none = true
  check_namespace_label_match w namespace (some label_selector) = elim kube_config [
    | some _ ↦ false
    | none ↦ elim new_for_config [
      | some _ ↦ false
      | none ↦ elim (namespace_labels w namespace) [
        | err _ ↦ false
        | ok labels ↦ selector_matches label_selector labels
      ]
    ]
  ]

  unfoldable pub check_label_match : Request → Option LabelSelector → Bool
  unfolding selector_matches
  check_label_match req none = true
  check_label_match req (some label_selector) = elim (unmarshal_object req.object_raw) [
    | err _ ↦ false
    | ok resource ↦ selector_matches label_selector (object_labels resource)
  ]

  unfoldable pub match_check : Cluster → Request → MatchCondition LabelSelector → Bool
  match_check w req match =
      if any (λ ens. match_pattern ens req.namespace) match.excluded_namespaces
      then false
      else (let ns_matched = check_namespace_match S req match.namespaces in
          let kinds_matched = check_kind_match S req match.kinds in
          let label_matched = check_label_match req match.label_selector in
          let nslabel_matched =
            check_namespace_label_match w req.namespace match.namespace_selector in
          if ns_matched && kinds_matched && nslabel_matched && label_matched then true else false)
