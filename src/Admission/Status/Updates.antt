-- ===== src/Admission/Status/Updates.antt =====
-- What the profiles of a cluster hold after a request (`updateConstraints` of
-- admission-controller/pkg/controller/constraint.go).
use integrity_shield.Base.{
  Str, ◌==◌, ==_iff, ◌≡◌, ◌≢◌, sym, ◌∙◌, ap, subst, Bool, false, List, [], ◌∷◌, if◌then◌else◌,
  Option, none, ok, Error, arith, Bool-cases, Result-cases, inl, inr, false≢true,
}
use integrity_shield.External.Kube.{Kube, UpdateIsLawful}
use integrity_shield.External.Sigstore.{Sigstore}
use integrity_shield.Server.Shield.Request.{Request, ResultFromRequestHandler}
use integrity_shield.Admission.Profile.{
  ManifestIntegrityProfile, ManifestIntegrityProfileOf, update_status,
}
use integrity_shield.Admission.Profile.History.{Denial, update_statuses}
use integrity_shield.Admission.Status.{
  Profiles, status_message, update_constraint_status, update_constraints,
}

-- The denials of a profile among the results of a request, in their order.
unfoldable pub denials_of : Str → Bool → Request → Str → List ResultFromRequestHandler → List Denial
denials_of profile is_detect_mode req timestamp [] = []
denials_of profile is_detect_mode req timestamp (res ∷ results) =
    let rest = denials_of profile is_detect_mode req timestamp results in
    if res.allow
    then rest
    else if res.profile == profile
    then record {
      request = req;
      message = status_message is_detect_mode res.message;
      timestamp = timestamp;
    }
      ∷ rest
    else rest

module _ (K : Kube) (S : Sigstore K.Cluster) (LabelSelector : Type 0)
    (P : Profiles K S LabelSelector)
    (lawful : UpdateIsLawful ManifestIntegrityProfileOf.name P.client)
    (configured : K.kube_config ≡ none) (connected : P.new_for_config ≡ none)
    (updates_succeed : (w : K.Cluster) (mip : ManifestIntegrityProfile S LabelSelector)
      → (P.client.update w [] mip).0 ≡ none) where
  abbrev status_updated : Str → Request → Str → K.Cluster → K.Cluster
  status_updated constraint req err_msg w =
      (update_constraint_status K S LabelSelector P constraint req err_msg w).1

  update_found :
      (constraint : Str) (req : Request) (err_msg : Str) (w : K.Cluster)
      {mip : ManifestIntegrityProfile S LabelSelector}
      → P.client.get w [] constraint ≡ ok mip
      → update_constraint_status K S LabelSelector P constraint req err_msg w
        ≡ P.client.update w [] (update_status S LabelSelector mip req err_msg P.timestamp)
  unfolding update_constraint_status
  update_found constraint req err_msg w found = ground arith

  get-update_status_self :
      (constraint : Str) (req : Request) (err_msg : Str) (w : K.Cluster)
      {mip : ManifestIntegrityProfile S LabelSelector}
      → P.client.get w [] constraint ≡ ok mip
      → P.client.get (status_updated constraint req err_msg w) [] constraint
        ≡ ok (update_status S LabelSelector mip req err_msg P.timestamp)
  unfolding update_status
  get-update_status_self constraint req err_msg w {mip} found =
      let new = update_status S LabelSelector mip req err_msg P.timestamp in
      let stored = lawful.get-update w [] new (updates_succeed w new) in
      ap (λ (r : Option Error × K.Cluster). P.client.get r.1 [] constraint)
        (update_found constraint req err_msg w found)
      ∙ subst (λ n. P.client.get (P.client.update w [] new).1 [] n ≡ ok new)
          (lawful.name-get w [] constraint found) stored

  get-update_status_of_eq :
      (constraint other : Str) (req : Request) (err_msg : Str) (w : K.Cluster)
      {mip : ManifestIntegrityProfile S LabelSelector}
      → constraint ≡ other
      → P.client.get w [] other ≡ ok mip
      → P.client.get (status_updated constraint req err_msg w) [] other
        ≡ ok (update_status S LabelSelector mip req err_msg P.timestamp)
  get-update_status_of_eq constraint other req err_msg w {mip} same found =
      rw (← same) (get-update_status_self constraint req err_msg w (rw same found))

  get-update_status_ne :
      (constraint other : Str) (req : Request) (err_msg : Str) (w : K.Cluster)
      → constraint ≢ other
      → P.client.get (status_updated constraint req err_msg w) [] other ≡ P.client.get w [] other
  unfolding update_constraint_status update_status
  get-update_status_ne constraint other req err_msg w differ =
      elim (Result-cases (P.client.get w [] constraint)) [
        | inr (e, missing) ↦ ground arith
        | inl (mip, found) ↦
            ap (λ (r : Option Error × K.Cluster). P.client.get r.1 [] other)
              (update_found constraint req err_msg w found)
            ∙ (lawful.get-update_ne w [] other
                (update_status S LabelSelector mip req err_msg P.timestamp)
                (λ same. differ (sym (lawful.name-get w [] constraint found) ∙ same)))
      ]

  -- Where the cluster can be reached and no update fails, a profile that is there before a request
  -- has, after it, the denials among the results that name the profile added to its status, in
  -- their order, and is otherwise the same.
  pub get-update_constraints :
      (profile : Str) (is_detect_mode : Bool) (req : Request)
      (results : List ResultFromRequestHandler) (w : K.Cluster)
      {mip : ManifestIntegrityProfile S LabelSelector}
      → P.client.get w [] profile ≡ ok mip
      → P.client.get
          (update_constraints K S LabelSelector P is_detect_mode req results w)
          []
          profile
        ≡ ok (
            update_statuses S LabelSelector mip
              (denials_of profile is_detect_mode req P.timestamp results))
  unfolding update_constraints denials_of update_statuses
  get-update_constraints profile is_detect_mode req [] w found = found
  get-update_constraints profile is_detect_mode req (res ∷ results) w {mip} found =
      let message = status_message is_detect_mode res.message in
      let w' = status_updated res.profile req message w in
      elim (Bool-cases (res.allow)) [
        | inl allowed ↦
            ground (arith, get-update_constraints profile is_detect_mode req results w found)
        | inr denied ↦ elim (Bool-cases (res.profile == profile)) [
          | inl same ↦ ground (
            arith,
            get-update_constraints profile is_detect_mode req results w' (
                get-update_status_of_eq res.profile profile req message w
                  ((==_iff res.profile profile).0 same) found),
          )
          | inr differ ↦ ground (
            arith,
            get-update_constraints profile is_detect_mode req results w'
                (get-update_status_ne res.profile profile req message w (not_same differ) ∙ found),
          )
        ]
      ]
    where
      not_same : (res.profile == profile) ≡ false → res.profile ≢ profile
      not_same e q = false≢true (sym e ∙ (==_iff res.profile profile).1 q)
