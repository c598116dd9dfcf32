-- ===== src/Admission/Status.antt =====
-- The status of the profiles that denied a request (`updateConstraintStatus`, `updateConstraints`
-- of admission-controller/pkg/controller/constraint.go).
pub mod Updates
use integrity_shield.Base.{
  Str, bytes, Bool, true, false, List, [], ◌∷◌, ◌++◌, if◌then◌else◌, Option, none, some, Result, ok,
  err, Error,
}
use integrity_shield.External.Kube.{Kube, Client}
use integrity_shield.External.Sigstore.{Sigstore}
use integrity_shield.External.Labels.{Labels}
use integrity_shield.Server.Shield.Request.{Request, ResultFromRequestHandler}
use integrity_shield.Admission.Profile.{ManifestIntegrityProfile, update_status}

-- The client of the profiles, which have no namespace, and the time as `UpdateStatus` prints it.
pub record Profiles (K : Kube) (S : Sigstore K.Cluster) (LabelSelector : Type 0) : Type 0 where
  pub new_for_config : Option Error
  pub list : K.Cluster → Result (List (ManifestIntegrityProfile S LabelSelector))
  pub client : Client K.Cluster (ManifestIntegrityProfile S LabelSelector)
  pub timestamp : Str

-- The message in a status, in detection mode and otherwise.
unfoldable pub status_message : Bool → Str → Str
status_message is_detect_mode message =
    if is_detect_mode then bytes "[Detection] " ++ message else message

module _ (K : Kube) (S : Sigstore K.Cluster) (LabelSelector : Type 0)
    (P : Profiles K S LabelSelector) where
  open K use {Cluster, kube_config}

  unfoldable pub update_constraint_status : Str → Request → Str → Cluster → Option Error × Cluster
  update_constraint_status constraint req err_msg w = elim kube_config [
    | some e ↦ (some e, w)
    | none ↦ elim (P.new_for_config) [
      | some e ↦ (some e, w)
      | none ↦ elim (P.client.get w [] constraint) [
        | err e ↦ (some e, w)
        | ok mip ↦ P.client.update w [] (update_status S LabelSelector mip req err_msg P.timestamp)
      ]
    ]
  ]

  -- The loop over the results. The errors are dropped.
  unfoldable pub update_constraints :
      Bool → Request → List ResultFromRequestHandler → Cluster → Cluster
  update_constraints is_detect_mode req [] w = w
  update_constraints is_detect_mode req (res ∷ results) w =
      update_constraints is_detect_mode req results (
        if res.allow
        then w
        else (update_constraint_status res.profile req (status_message is_detect_mode res.message)
            w).1)
