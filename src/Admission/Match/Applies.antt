-- ===== src/Admission/Match/Applies.antt =====
-- Which requests a profile applies to (admission-controller/pkg/controller/constraint.go).
use integrity_shield.Base.{
  Str, ◌≡◌, refl, Bool, true, false, List, [], ◌∷◌, is_empty, if◌then◌else◌, any, empty_or_flag_iff,
  empty_or_any_iff, Passes, Option, none, some, Result, ok, err, arith, ◌↔◌, ◌⊎◌, inl, inr, Memᴰ,
  sym, ◌∙◌, Result-cases, ok-injective, err-ne-ok, false≢true, any-false_iff,
}
use integrity_shield.External.Kube.{Kube}
use integrity_shield.External.Sigstore.{Sigstore}
use integrity_shield.External.Labels.{Labels}
use integrity_shield.Server.Shield.Request.{Request}
use integrity_shield.Admission.Profile.{Kinds, MatchCondition}
use integrity_shield.Admission.Match.{
  check_namespace_match, patterns_match, kinds_match, check_kind_match, selector_matches,
  check_namespace_label_match, check_label_match, match_check,
}

module _ {Cluster : Type 0} (S : Sigstore Cluster) where
  open S use {match_pattern}

  -- A list of patterns is empty, or one of them matches the value.
  abbrev pub Covers : List Str → Str → Type 0
  Covers patterns value = (patterns ≡ []) ⊎ Passes (λ p. match_pattern p value) patterns

  patterns_match_iff :
      (patterns : List Str) (value : Str)
      → (patterns_match S patterns value ≡ true) ↔ Covers patterns value
  unfolding patterns_match
  patterns_match_iff patterns value = empty_or_any_iff (λ p. match_pattern p value) patterns

  -- The condition on the namespace: a resource of no namespace passes.
  abbrev pub InNamespaces : Request → List Str → Type 0
  InNamespaces req match =
      (match ≡ []) ⊎ (req.namespace ≡ []) ⊎ Passes (λ p. match_pattern p req.namespace) match

  check_namespace_match_iff :
      (req : Request) (match : List Str)
      → (check_namespace_match S req match ≡ true) ↔ InNamespaces req match
  unfolding check_namespace_match
  check_namespace_match_iff req match =
      let found =
        empty_or_flag_iff (λ (p : Str). match_pattern p req.namespace)
          (if is_empty req.namespace then true else false) match in
      (
        λ h. elim (found.0 h) [
          | inl e ↦ inl e
          | inr (inl e) ↦ inr (inl ((empty_flag req.namespace).0 e))
          | inr (inr w) ↦ inr (inr w)
        ],
        λ h. found.1 (elim h [
          | inl e ↦ inl e
          | inr (inl e) ↦ inr (inl ((empty_flag req.namespace).1 e))
          | inr (inr w) ↦ inr (inr w)
        ]),
      )
    where
      empty_flag : (s : Str) → ((if is_empty s then true else false) ≡ true) ↔ (s ≡ [])
      empty_flag [] = (λ _. refl, λ _. refl)
      empty_flag (c ∷ s) = ground arith

  -- The condition on the kind: an entry covers the kind and the group, or there is no entry.
  abbrev pub InKinds : Request → List Kinds → Type 0
  InKinds req match =
      (match ≡ [])
      ⊎ ((kinds : Kinds) × Memᴰ kinds match
          × Covers kinds.kinds req.kind.kind
          × Covers kinds.api_groups req.kind.group)

  kinds_match_split :
      (req : Request) (kinds : Kinds)
      → (kinds_match S req kinds ≡ true) ↔ (
          (patterns_match S kinds.kinds req.kind.kind ≡ true)
          × (patterns_match S kinds.api_groups req.kind.group ≡ true))
  unfolding kinds_match
  kinds_match_split req kinds = ground arith

  kinds_match_iff :
      (req : Request) (kinds : Kinds)
      → (kinds_match S req kinds ≡ true)
        ↔ (Covers kinds.kinds req.kind.kind × Covers kinds.api_groups req.kind.group)
  kinds_match_iff req kinds =
      let k = patterns_match_iff kinds.kinds req.kind.kind in
      let g = patterns_match_iff kinds.api_groups req.kind.group in
      (λ h. let (p, q) = both.0 h in (k.0 p, g.0 q), λ w. both.1 (k.1 w.0, g.1 w.1))
    where
      both : (kinds_match S req kinds ≡ true) ↔ (
          (patterns_match S kinds.kinds req.kind.kind ≡ true)
          × (patterns_match S kinds.api_groups req.kind.group ≡ true))
      both = kinds_match_split req kinds

  check_kind_match_iff :
      (req : Request) (match : List Kinds)
      → (check_kind_match S req match ≡ true) ↔ InKinds req match
  unfolding check_kind_match
  check_kind_match_iff req match =
      let found = empty_or_any_iff (kinds_match S req) match in
      (
        λ h. elim (found.0 h) [
          | inl e ↦ inl e
          | inr (k, m, q) ↦ let (a, b) = (kinds_match_iff req k).0 q in inr (k, m, a, b)
        ],
        λ h. found.1 (elim h [
          | inl e ↦ inl e
          | inr (k, m, a, b) ↦ inr (k, m, (kinds_match_iff req k).1 (a, b))
        ]),
      )

module _ (K : Kube) (S : Sigstore K.Cluster) (L : Labels K.Cluster S.Object) where
  open L use {LabelSelector, Selector, as_selector, matches, object_labels, namespace_labels}

  -- The labels that are read match a selector, if there is one.
  abbrev pub SelectsFrom : Result (List (Str × Str)) → Option LabelSelector → Type 0
  SelectsFrom read none = Unit
  SelectsFrom read (some label_selector) =
      (selector : Selector) × (labels : List (Str × Str)) × (as_selector label_selector
        ≡ ok selector)
      × (read ≡ ok labels)
      × (matches selector labels ≡ true)

  -- The labels of the object of a request.
  unfoldable pub object_labels_of : Request → Result (List (Str × Str))
  object_labels_of req = elim (S.unmarshal_object req.object_raw) [
    | err e ↦ err e
    | ok resource ↦ ok (object_labels resource)
  ]

  -- The labels of a namespace, or the error on the way to them.
  unfoldable pub namespace_labels_of : K.Cluster → Str → Result (List (Str × Str))
  namespace_labels_of w namespace = elim (K.kube_config) [
    | some e ↦ err e
    | none ↦ elim (K.new_for_config) [ some e ↦ err e | none ↦ namespace_labels w namespace ]
  ]

  selector_matches_iff :
      (label_selector : LabelSelector) (labels : List (Str × Str))
      → (selector_matches K S L label_selector labels ≡ true) ↔ (
          (selector : Selector) × (as_selector label_selector ≡ ok selector)
          × (matches selector labels ≡ true))
  unfolding selector_matches
  selector_matches_iff label_selector labels = elim (Result-cases (as_selector label_selector)) [
    | inl (selector, p) ↦
        rw (p, selector_matches) (λ h. (selector, refl, h), λ w. rw (ok-injective w.1) w.2)
    | inr (e, p) ↦
        rw (p, selector_matches) (λ h. absurd (false≢true h), λ w. absurd (err-ne-ok w.1))
  ]

  -- Whether labels that were read match.
  read_matches : Option LabelSelector → Result (List (Str × Str)) → Bool
  read_matches none read = true
  read_matches (some l) (err e) = false
  read_matches (some l) (ok labels) = selector_matches K S L l labels

  read_matches_iff :
      (selector : Option LabelSelector) (read : Result (List (Str × Str)))
      → (read_matches selector read ≡ true) ↔ SelectsFrom read selector
  unfolding read_matches
  read_matches_iff none read = (λ _. tt, λ _. refl)
  read_matches_iff (some l) (err e) = (λ h. absurd (false≢true h), λ w. absurd (err-ne-ok w.3))
  read_matches_iff (some l) (ok labels) = (
    λ h. let (s, a, m) = (selector_matches_iff l labels).0 h in (s, labels, a, refl, m),
    λ w. (selector_matches_iff l labels).1 (w.0, w.2, rw (ok-injective w.3) w.4),
  )

  check_label_match-read :
      (req : Request) (selector : Option LabelSelector)
      → check_label_match K S L req selector ≡ read_matches selector (object_labels_of req)
  unfolding check_label_match read_matches object_labels_of
  check_label_match-read req none = refl
  check_label_match-read req (some l) = ground arith

  check_namespace_label_match-read :
      (w : K.Cluster) (namespace : Str) (selector : Option LabelSelector)
      → check_namespace_label_match K S L w namespace selector
        ≡ read_matches selector (namespace_labels_of w namespace)
  unfolding check_namespace_label_match read_matches namespace_labels_of
  check_namespace_label_match-read w namespace none = refl
  check_namespace_label_match-read w namespace (some l) = ground arith

  match_check_split :
      (w : K.Cluster) (req : Request) (match : MatchCondition LabelSelector)
      → (match_check K S L w req match ≡ true) ↔ (
          (any (λ ens. S.match_pattern ens req.namespace) match.excluded_namespaces ≡ false)
          × (check_namespace_match S req match.namespaces ≡ true)
          × (check_kind_match S req match.kinds ≡ true)
          × (check_label_match K S L req match.label_selector ≡ true)
          × (check_namespace_label_match K S L w req.namespace match.namespace_selector ≡ true))
  unfolding match_check
  match_check_split w req match = ground arith

  -- A profile applies to a request exactly when no pattern excludes the namespace, the namespace
  -- and the kind are in its lists, or these are empty, and the labels of the object and those of
  -- the namespace can be read and match, where it has selectors for them.
  pub match_check_iff :
      (w : K.Cluster) (req : Request) (match : MatchCondition LabelSelector)
      → (match_check K S L w req match ≡ true) ↔ (
          (¬ Passes (λ ens. S.match_pattern ens req.namespace) match.excluded_namespaces)
          × InNamespaces S req match.namespaces
          × InKinds S req match.kinds
          × SelectsFrom (object_labels_of req) match.label_selector
          × SelectsFrom (namespace_labels_of w req.namespace) match.namespace_selector)
  match_check_iff w req match =
      let split = match_check_split w req match in
      let excluded =
        any-false_iff (λ (ens : Str). S.match_pattern ens req.namespace)
          match.excluded_namespaces in
      let ns = check_namespace_match_iff S req match.namespaces in
      let kinds = check_kind_match_iff S req match.kinds in
      let labels = read_matches_iff match.label_selector (object_labels_of req) in
      let ns_labels =
        read_matches_iff match.namespace_selector (namespace_labels_of w req.namespace) in
      let l = check_label_match-read req match.label_selector in
      let n = check_namespace_label_match-read w req.namespace match.namespace_selector in
      (
        λ h.
            let (a, b, c, d, e) = split.0 h in
            (excluded.0 a, ns.0 b, kinds.0 c, labels.0 (sym l ∙ d), ns_labels.0 (sym n ∙ e)),
        λ t. split.1 (excluded.1 t.0, ns.1 t.1, kinds.1 t.2, l ∙ labels.1 t.3, n ∙ ns_labels.1 t.4),
      )
