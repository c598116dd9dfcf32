-- ===== src/Observer/Constraint/Rules.antt =====
-- Which resources the rules of a constraint reach (observer/pkg/observer/observer.go).
use mathlib.Core.List.{append_assoc, append-nil}
use integrity_shield.Base.{
  Str, ◌==◌, ==_iff, ◌≡◌, refl, sym, ◌∙◌, ap, Bool, true, false, false≢true, List, [], ◌∷◌, ◌++◌,
  is_empty, length, replicate, if◌then◌else◌, ◌||◌, any, any_iff, keep, Memᴰ, All, Option, some,
  arith, ◌↔◌, ◌⊎◌, inl, inr, Bool-cases,
}
use integrity_shield.External.Kube.{Kube}
use integrity_shield.External.Sigstore.{Sigstore}
use integrity_shield.External.Labels.{Labels}
use integrity_shield.External.Dynamic.{Dynamic}
use integrity_shield.Admission.Profile.{Kinds, MatchCondition}
use integrity_shield.Observer.Pattern.{contains}
use integrity_shield.Observer.Constraint.{
  GroupResource, GroupResourceWithTargetNs, kinds_cover, target_namespaces_of, rule_loop,
  check_if_rule_match_with_gvk, get_possible_protected_gvks,
}

pub contains_iff : (values : List Str) (v : Str) → (contains values v ≡ true) ↔ Memᴰ v values
unfolding contains
contains_iff values v = (
  λ h. let (x, m, e) = (any_iff (λ (p : Str). p == v) values).0 h in Memᴰ-cast ((==_iff x v).0 e) m,
  λ m. (any_iff (λ (p : Str). p == v) values).1 (v, m, (==_iff v v).1 refl),
)
  where
    Memᴰ-cast : {x : Str} → x ≡ v → Memᴰ x values → Memᴰ v values
    Memᴰ-cast e m = rw (← e) m

nil_iff : (xs : List Str) → (is_empty xs ≡ true) ↔ (xs ≡ [])
nil_iff [] = (λ _. refl, λ _. refl)
nil_iff (x ∷ xs) = (λ h. absurd (false≢true h), λ e. ap is_empty e)

module _ (K : Kube) (S : Sigstore K.Cluster) (L : Labels K.Cluster S.Object)
    (D : Dynamic K.Cluster S.Object) where
  open L use {LabelSelector}

  -- An entry reaches a resource: it has no API groups, or one that is the resource's and a kind
  -- that is the resource's.
  abbrev pub Reaches : Kinds → GroupResource → Type 0
  Reaches kinds r =
      (kinds.api_groups ≡ [])
      ⊎ (Memᴰ (r.api_group) (kinds.api_groups) × Memᴰ (r.api_resource.kind) (kinds.kinds))

  kinds_cover_split :
      (kinds : Kinds) (r : GroupResource)
      → (kinds_cover K S L D kinds r ≡ true) ↔ (
          (is_empty kinds.api_groups ≡ true)
          ⊎ ((contains kinds.api_groups r.api_group ≡ true)
              × (contains kinds.kinds r.api_resource.kind ≡ true)))
  unfolding kinds_cover
  kinds_cover_split kinds r = ground arith

  kinds_cover_iff :
      (kinds : Kinds) (r : GroupResource) → (kinds_cover K S L D kinds r ≡ true) ↔ Reaches kinds r
  kinds_cover_iff kinds r =
      let split = kinds_cover_split kinds r in
      let none_given = nil_iff kinds.api_groups in
      let group = contains_iff kinds.api_groups r.api_group in
      let kind = contains_iff kinds.kinds r.api_resource.kind in
      (
        λ h. elim (split.0 h) [
          | inl e ↦ inl (none_given.0 e)
          | inr w ↦ inr (group.0 w.0, kind.0 w.1)
        ],
        λ h.
            split.1
              (elim h [ inl e ↦ inl (none_given.1 e) | inr w ↦ inr (group.1 w.0, kind.1 w.1) ]),
      )

  module _ (match : MatchCondition LabelSelector) (w : K.Cluster) where
    abbrev covers : GroupResource → Kinds → Bool
    covers r kinds = kinds_cover K S L D kinds r

    abbrev target : GroupResource → GroupResourceWithTargetNs
    target r = record {
      group_resource = r;
      target_namespaces = target_namespaces_of K S L D match w;
    }

    rule_loop_lem :
        (r : GroupResource) (rules : List Kinds) (matched : Bool)
        (gvks : List GroupResourceWithTargetNs)
        → rule_loop K S L D match r w rules matched gvks ≡ (
          matched || any (covers r) rules,
          gvks ++ replicate (length (keep (covers r) rules)) (target r),
        )
    unfolding rule_loop any keep
    rule_loop_lem r [] matched gvks = ground (arith, append-nil gvks)
    rule_loop_lem r (kinds ∷ rest) matched gvks = elim (Bool-cases (kinds_cover K S L D kinds r)) [
      | inl e ↦ ground (
        arith,
        rule_loop_lem r rest true (gvks ++ (target r ∷ [])),
        append_assoc gvks (target r ∷ []) (replicate (length (keep (covers r) rest)) (target r)),
      )
      | inr e ↦ ground (arith, rule_loop_lem r rest matched gvks)
    ]

    loop_or_empty :
        (r : GroupResource) (rules : List Kinds)
        → (if is_empty rules then (false, []) else rule_loop K S L D match r w rules false [])
          ≡ (any (covers r) rules, replicate (length (keep (covers r) rules)) (target r))
    loop_or_empty r [] = unfold any keep in refl
    loop_or_empty r (kinds ∷ rest) = rule_loop_lem r (kinds ∷ rest) false []

    check_if_rule_match_lem :
        (r : GroupResource)
        → check_if_rule_match_with_gvk K S L D match r w ≡ (
          any (covers r) match.kinds,
          replicate (length (keep (covers r) match.kinds)) (target r),
        )
    unfolding check_if_rule_match_with_gvk
    check_if_rule_match_lem r = loop_or_empty r match.kinds

    -- An entry of the condition reaches the resource.
    abbrev pub Reached : GroupResource → Type 0
    Reached r = (kinds : Kinds) × Memᴰ kinds (match.kinds) × Reaches kinds r

    Reached-iff : (r : GroupResource) → (any (covers r) match.kinds ≡ true) ↔ Reached r
    Reached-iff r = (
      λ h.
          let (k, m, e) = (any_iff (covers r) match.kinds).0 h in (k, m, (kinds_cover_iff k r).0 e),
      λ x. (any_iff (covers r) match.kinds).1 (x.0, x.1, (kinds_cover_iff x.0 r).1 x.2),
    )

    -- A condition matches a resource exactly when one of its entries has no API groups, or has the
    -- group and the kind of the resource. Each such entry gives the resource once, with the same
    -- namespaces.
    pub check_if_rule_match_with_gvk_iff :
        (r : GroupResource)
        → (((check_if_rule_match_with_gvk K S L D match r w).0 ≡ true)
            ↔ ((kinds : Kinds) × Memᴰ kinds (match.kinds) × Reaches kinds r))
          × ((check_if_rule_match_with_gvk K S L D match r w).1
              ≡ replicate (length (keep (λ k. kinds_cover K S L D k r) match.kinds)) (record {
                group_resource = r;
                target_namespaces = target_namespaces_of K S L D match w;
              }))
    check_if_rule_match_with_gvk_iff r = rw (check_if_rule_match_lem r) (Reached-iff r, refl)

    -- No resource is reached, or all that is protected is the first one that is.
    abbrev pub FirstReached : List GroupResource → Option (List GroupResourceWithTargetNs) → Type 0
    FirstReached resources found =
        (All (λ r. ¬ Reached r) resources × (found ≡ some []))
        ⊎ ((before : List GroupResource) × (r : GroupResource) × (after : List GroupResource)
            × (resources ≡ before ++ (r ∷ after))
            × All (λ x. ¬ Reached x) before
            × Reached r
            × (found ≡ some (replicate (length (keep (covers r) match.kinds)) (target r))))

    protected-cons :
        (r : GroupResource) (rest : List GroupResource)
        → get_possible_protected_gvks K S L D (r ∷ rest) match w ≡ (
            if any (covers r) match.kinds
            then some (replicate (length (keep (covers r) match.kinds)) (target r))
            else get_possible_protected_gvks K S L D rest match w)
    unfolding get_possible_protected_gvks
    protected-cons r rest = rw (check_if_rule_match_lem r)

    -- The resources that a constraint protects are those of the first resource of the cluster that
    -- one of its entries reaches, and there are none if there is no such resource. The result is
    -- never nil.
    pub get_possible_protected_gvks_lem :
        (resources : List GroupResource)
        → FirstReached resources (get_possible_protected_gvks K S L D resources match w)
    get_possible_protected_gvks_lem [] = inl (tt, unfold get_possible_protected_gvks in refl)
    get_possible_protected_gvks_lem (r ∷ rest) =
        rw (protected-cons r rest) (elim (Bool-cases (any (covers r) match.kinds)) [
          | inl e ↦ rw e (inr ([], r, rest, refl, tt, (Reached-iff r).0 e, refl))
          | inr e ↦ rw e (elim (get_possible_protected_gvks_lem rest) [
            | inl (all, f) ↦ inl ((unreached r e, all), f)
            | inr (before, x, after, split, all, m, f) ↦
                inr (r ∷ before, x, after, (λ i. r ∷ split i), (unreached r e, all), m, f)
          ])
        ])
      where
        unreached : (r : GroupResource) → any (covers r) match.kinds ≡ false → ¬ Reached r
        unreached r e m = false≢true (sym e ∙ (Reached-iff r).1 m)
