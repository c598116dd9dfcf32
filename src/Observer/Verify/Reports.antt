-- ===== src/Observer/Verify/Reports.antt =====
-- What `ObserveResources` reports (observer/pkg/observer/verify_resource.go).
use integrity_shield.Base.{
  Str, ◌≡◌, refl, Bool, true, false, List, [], ◌∷◌, not, if◌then◌else◌, none, some, ok, err, Error,
  ◌⊎◌, inl, inr, arith, Result-cases,
}
use integrity_shield.External.Kube.{Kube}
use integrity_shield.External.Sigstore.{Sigstore, VerifyResourceResult}
use integrity_shield.External.Dynamic.{Dynamic}
use integrity_shield.Server.Parameter.{KeyConfig}
use integrity_shield.Observer.Verify.{
  VerifyResultDetail, key_loop, observer_option, detail_of, observe_resources,
}

module _ (K : Kube) (S : Sigstore K.Cluster) (D : Dynamic K.Cluster S.Object) where
  open S use {Object, ObjectFieldBinding, DiffResult}

  -- The detail is about the resource, and says what its verification with some key came to: an
  -- error and no result, or a result that is a violation unless it is verified.
  abbrev pub Reports :
      K.Cluster → Str → List ObjectFieldBinding → Object → VerifyResultDetail K S D → Type 0
  Reports w image_ref ignore_fields resource d =
      (d.name ≡ D.name resource)
      × (d.kind ≡ D.kind resource)
      × (d.namespace ≡ D.namespace resource)
      × ((key : Str) × (((e : Error) × (S.verify_resource w resource
                  (observer_option K S D image_ref ignore_fields key)
                ≡ err e)
              × (d.error ≡ true)
              × (d.violation ≡ true)
              × (d.message ≡ e.message)
              × (d.verify_resource_result ≡ none))
            ⊎ ((r : VerifyResourceResult DiffResult) × (S.verify_resource w resource
                    (observer_option K S D image_ref ignore_fields key)
                  ≡ ok r)
                × (d.error ≡ false)
                × (d.violation ≡ not r.verified)
                × (d.verify_resource_result ≡ some r))))

  -- One detail for each resource, in their order.
  abbrev pub AllReported :
      K.Cluster
      → Str
      → List ObjectFieldBinding
      → List Object
      → List (VerifyResultDetail K S D)
      → Type 0
  AllReported w image_ref ignore_fields [] [] = Unit
  AllReported w image_ref ignore_fields [] (d ∷ ds) = ⊥
  AllReported w image_ref ignore_fields (r ∷ rs) [] = ⊥
  AllReported w image_ref ignore_fields (r ∷ rs) (d ∷ ds) =
      Reports w image_ref ignore_fields r d × AllReported w image_ref ignore_fields rs ds

  detail-Reports :
      (w : K.Cluster) (time image_ref key : Str) (ignore_fields : List ObjectFieldBinding)
      (resource : Object)
      → Reports w image_ref ignore_fields resource (
          detail_of K S D time resource
            (S.verify_resource w resource (observer_option K S D image_ref ignore_fields key)))
  unfolding detail_of
  detail-Reports w time image_ref key ignore_fields resource =
      elim (Result-cases
        (S.verify_resource w resource (observer_option K S D image_ref ignore_fields key))) [
          | inl (r, p) ↦
              rw p (refl, refl, refl, (key, inr (r, p, refl, unless-verified (r.verified), refl)))
          | inr (e, p) ↦ rw p (refl, refl, refl, (key, inl (e, p, refl, refl, refl, refl)))
        ]
    where
      unless-verified : (b : Bool) → (if b then false else true) ≡ not b
      unless-verified b = ground arith

  -- There is one detail for each resource, in their order. It says what the verification of the
  -- resource with some key came to: an error and no result, or a result, and it is a violation
  -- unless the resource is verified.
  pub observe_resources-AllReported :
      (time : Str) (resources : List Object) (image_ref : Str)
      (ignore_fields : List ObjectFieldBinding) (secrets : List KeyConfig) (w : K.Cluster)
      (files : K.Files)
      → AllReported w image_ref ignore_fields resources
          (observe_resources K S D time resources image_ref ignore_fields secrets w files).0
  unfolding observe_resources
  observe_resources-AllReported time [] image_ref ignore_fields secrets w files = tt
  observe_resources-AllReported time (r ∷ resources) image_ref ignore_fields secrets w files =
      let (key, files') = key_loop K S D secrets r w files in
      (
        detail-Reports w time image_ref key ignore_fields r,
        observe_resources-AllReported time resources image_ref ignore_fields secrets w files',
      )
