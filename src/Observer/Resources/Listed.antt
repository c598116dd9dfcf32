-- ===== src/Observer/Resources/Listed.antt =====
-- What is listed for a protected resource (observer/pkg/observer/observer.go).
use mathlib.Core.List.{append_assoc, append-nil}
use integrity_shield.Base.{
  Str, ◌≡◌, refl, sym, ◌∙◌, ap, true, false, List, [], ◌∷◌, ◌++◌, ok, err, Error, returns, panics,
  arith, ◌↔◌, ◌⊎◌, inl, inr, Result-cases, Bool-cases,
}
use integrity_shield.External.Kube.{Kube}
use integrity_shield.External.Sigstore.{Sigstore}
use integrity_shield.External.Dynamic.{GroupVersionResource, Dynamic}
use integrity_shield.Observer.Constraint.{GroupResourceWithTargetNs}
use integrity_shield.Observer.Resources.{
  resource_of, namespaces_loop, get_all_resources_by_group_resource,
}

module _ (K : Kube) (S : Sigstore K.Cluster) (D : Dynamic K.Cluster S.Object) where
  open S use {Object}

  -- The objects of all the namespaces together, where each of them can be listed.
  abbrev pub ListedIn : K.Cluster → GroupVersionResource → List Str → List Object → Type 0
  ListedIn w gvr [] objects = objects ≡ []
  ListedIn w gvr (ns ∷ rest) objects =
      (items : List Object) × (more : List Object) × (D.list_namespace w gvr ns ≡ ok items)
      × ListedIn w gvr rest more
      × (objects ≡ items ++ more)

  -- One of the namespaces cannot be listed.
  abbrev pub Unlisted : K.Cluster → GroupVersionResource → List Str → Type 0
  Unlisted w gvr [] = ⊥
  Unlisted w gvr (ns ∷ rest) =
      ((e : Error) × (D.list_namespace w gvr ns ≡ err e)) ⊎ Unlisted w gvr rest

  namespaces_loop_lem :
      (w : K.Cluster) (gvr : GroupVersionResource) (namespaces : List Str) (found : List Object)
      → ((e : Error) × (namespaces_loop K S D gvr namespaces found w ≡ err e)
          × Unlisted w gvr namespaces)
        ⊎ ((objects : List Object) × (namespaces_loop K S D gvr namespaces found w
              ≡ ok (found ++ objects))
            × ListedIn w gvr namespaces objects)
  unfolding namespaces_loop
  namespaces_loop_lem w gvr [] found = inr ([], ap ok (sym (append-nil found)), refl)
  namespaces_loop_lem w gvr (ns ∷ rest) found = elim (Result-cases (D.list_namespace w gvr ns)) [
    | inr (e, p) ↦ inl (e, rw (p, namespaces_loop) refl, inl (e, p))
    | inl (items, p) ↦ elim (namespaces_loop_lem w gvr rest (found ++ items)) [
      | inl (e, f, u) ↦ inl (e, rw (p, namespaces_loop) f, inr u)
      | inr (more, f, l) ↦ inr (
        items ++ more,
        rw (p, namespaces_loop) (f ∙ ap ok (append_assoc found items more)),
        (items, more, p, l, refl),
      )
    ]
  ]

  -- Of a resource with namespaces the objects of all target namespaces are listed, in their order,
  -- or none at all if one of the namespaces cannot be listed.
  pub get_all_resources_namespaced :
      (g : GroupResourceWithTargetNs) (w : K.Cluster)
      → g.group_resource.api_resource.namespaced ≡ true
      → (Unlisted w (resource_of g.group_resource) g.target_namespaces
          × (get_all_resources_by_group_resource K S D g w ≡ returns []))
        ⊎ ((objects : List Object) × ListedIn w
              (resource_of g.group_resource)
              g.target_namespaces
              objects
            × (get_all_resources_by_group_resource K S D g w ≡ returns objects))
  unfolding get_all_resources_by_group_resource
  get_all_resources_namespaced g w namespaced =
      elim (namespaces_loop_lem w (resource_of g.group_resource) g.target_namespaces []) [
        | inl (e, f, u) ↦ inl (u, ground arith)
        | inr (objects, f, l) ↦ inr (objects, l, ground arith)
      ]

  -- The listing panics exactly for a resource without namespaces that cannot be listed.
  pub get_all_resources-panics_iff :
      (g : GroupResourceWithTargetNs) (w : K.Cluster)
      → (get_all_resources_by_group_resource K S D g w ≡ panics) ↔ (
          (g.group_resource.api_resource.namespaced ≡ false)
          × ((e : Error) × (D.list w (resource_of g.group_resource) ≡ err e)))
  unfolding get_all_resources_by_group_resource
  get_all_resources-panics_iff g w = (
    λ h. elim (Bool-cases (g.group_resource.api_resource.namespaced)) [
      | inl namespaced ↦ absurd (namespaced_returns namespaced h)
      | inr cluster_wide ↦ elim (Result-cases (D.list w (resource_of g.group_resource))) [
        | inr failed ↦ (cluster_wide, failed)
        | inl (items, listed) ↦ absurd (listed_returns items cluster_wide listed h)
      ]
    ],
    λ x. let (c, (e, p)) = x in ground (arith, c, p),
  )
    where
      namespaced_returns :
          g.group_resource.api_resource.namespaced ≡ true
          → get_all_resources_by_group_resource K S D g w ≡ panics
          → ⊥
      namespaced_returns namespaced h = ground arith

      listed_returns :
          (items : List Object)
          → g.group_resource.api_resource.namespaced ≡ false
          → D.list w (resource_of g.group_resource) ≡ ok items
          → get_all_resources_by_group_resource K S D g w ≡ panics
          → ⊥
      listed_returns items cluster_wide listed h = ground arith
