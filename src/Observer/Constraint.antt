-- ===== src/Observer/Constraint.antt =====
-- The constraints of observer/pkg/observer/observer.go, and the resources that they can protect.
pub mod Rules
use integrity_shield.Base.{
  Str, bytes, Bool, true, false, List, [], ◌∷◌, ◌++◌, map, is_empty, if◌then◌else◌, ◌&&◌, keep,
  Option, none, some, Result, ok, err, Error,
}
use integrity_shield.External.Kube.{Kube}
use integrity_shield.External.Sigstore.{Sigstore}
use integrity_shield.External.Labels.{Labels}
use integrity_shield.External.Dynamic.{ApiResource, GroupVersionResource, Dynamic}
use integrity_shield.Server.Parameter.{ParameterObject}
use integrity_shield.Admission.Profile.{Kinds, MatchCondition}
use integrity_shield.Observer.Pattern.{contains}

pub record GroupResource : Type 0 where
  pub api_group : Str
  pub api_version : Str
  pub api_resource : ApiResource

pub record GroupResourceWithTargetNs : Type 0 where
  pub group_resource : GroupResource
  pub target_namespaces : List Str

-- `MatchCondition` and `Kinds` have the fields of the controller's.
pub record ConstraintSpecOf (Parameters : Type 0) (LabelSelector : Type 0) : Type 0 where
  pub match : MatchCondition LabelSelector
  pub parameters : Parameters

unfoldable pub constraint_resource : GroupVersionResource
constraint_resource = record {
  group = bytes "constraints.gatekeeper.sh";
  version = bytes "v1beta1";
  resource = bytes "manifestintegrityconstraint";
}

module _ (K : Kube) (S : Sigstore K.Cluster) (L : Labels K.Cluster S.Object)
    (D : Dynamic K.Cluster S.Object) where
  open K use {Cluster}
  open S use {Object}
  open L use {LabelSelector, as_selector, matches, list_namespaces}

  abbrev pub ConstraintSpec : Type 0
  ConstraintSpec = ConstraintSpecOf (ParameterObject S) LabelSelector

  -- `spec_of` is the way of an object's `spec` through JSON, which leaves the zero value behind
  -- where it fails.
  unfoldable pub load_constraints :
      (Object → ConstraintSpec) → Cluster → List ConstraintSpec × Option Error
  unfolding constraint_resource
  load_constraints spec_of w = elim (D.list w constraint_resource) [
    | err e ↦ ([], some e)
    | ok items ↦ (map spec_of items, none)
  ]

  -- The names of the namespaces with matching labels; an error gives none.
  unfoldable pub get_label_matched_namespace : LabelSelector → Cluster → List Str
  get_label_matched_namespace label_selector w = elim (K.kube_config) [
    | some _ ↦ []
    | none ↦ elim (K.new_for_config) [
      | some _ ↦ []
      | none ↦ elim (list_namespaces w) [
        | err _ ↦ []
        | ok namespaces ↦ elim (as_selector label_selector) [
          | err _ ↦ []
          | ok selector ↦
              map (λ (ns : Str × List (Str × Str)). ns.0)
                (keep (λ (ns : Str × List (Str × Str)). matches selector ns.1) namespaces)
        ]
      ]
    ]
  ]

  -- The namespaces of a condition, and those that its selector finds.
  unfoldable pub target_namespaces_of : MatchCondition LabelSelector → Cluster → List Str
  unfolding get_label_matched_namespace
  target_namespaces_of match w = elim (match.namespace_selector) [
    | none ↦ match.namespaces
    | some selector ↦ match.namespaces ++ get_label_matched_namespace selector w
  ]

  -- The test of one entry. Both branches ask whether there are API groups.
  unfoldable pub kinds_cover : Kinds → GroupResource → Bool
  kinds_cover kinds api_resource =
      let agmatch =
        if is_empty kinds.api_groups
        then true
        else contains kinds.api_groups api_resource.api_group in
      let kmatch =
        if is_empty kinds.api_groups
        then true
        else contains kinds.kinds api_resource.api_resource.kind in
      kmatch && agmatch

  unfoldable pub rule_loop :
      MatchCondition LabelSelector
      → GroupResource
      → Cluster
      → List Kinds
      → Bool
      → List GroupResourceWithTargetNs
      → Bool × List GroupResourceWithTargetNs
  unfolding kinds_cover target_namespaces_of
  rule_loop match api_resource w [] matched gvks = (matched, gvks)
  rule_loop match api_resource w (kinds ∷ rest) matched gvks =
      if kinds_cover kinds api_resource
      then rule_loop match api_resource w rest true (
          gvks
          ++ (record {
            group_resource = api_resource;
            target_namespaces = target_namespaces_of match w;
          }
              ∷ []))
      else rule_loop match api_resource w rest matched gvks

  unfoldable pub check_if_rule_match_with_gvk :
      MatchCondition LabelSelector → GroupResource → Cluster → Bool × List GroupResourceWithTargetNs
  unfolding rule_loop
  check_if_rule_match_with_gvk match api_resource w =
      if is_empty match.kinds
      then (false, [])
      else rule_loop match api_resource w match.kinds false []

  -- The loop over the resources of the cluster, which ends at the first that matches. The result
  -- is a slice, where `none` would be nil.
  unfoldable pub get_possible_protected_gvks :
      List GroupResource
      → MatchCondition LabelSelector
      → Cluster
      → Option (List GroupResourceWithTargetNs)
  unfolding check_if_rule_match_with_gvk
  get_possible_protected_gvks [] match w = some []
  get_possible_protected_gvks (api_resource ∷ rest) match w =
      let (matched, tmp_gvks) = check_if_rule_match_with_gvk match api_resource w in
      let later = get_possible_protected_gvks rest match w in
      if matched then some tmp_gvks else later
