-- ===== src/Admission/Profile.antt =====
-- admission-controller/pkg/apis/manifestintegrityprofile/v1alpha1/types.go: a profile, and the
-- history of denials in its status.
pub mod History
use integrity_shield.Base.{
  ℕ, ◌+◌, ◌%◌, ◌^◌, Str, bytes, Bool, List, [], ◌∷◌, ◌++◌, length, take, ltb, if◌then◌else◌, Option,
}
use integrity_shield.External.Sigstore.{Sigstore}
use integrity_shield.Server.Parameter.{ParameterObject}
use integrity_shield.Server.Shield.Request.{Request}

abbrev pub max_history_length : ℕ
max_history_length = 10

pub record Kinds : Type 0 where
  pub kinds : List Str
  pub api_groups : List Str

pub record MatchCondition (LabelSelector : Type 0) : Type 0 where
  pub kinds : List Kinds
  pub namespaces : List Str
  pub excluded_namespaces : List Str
  pub label_selector : Option LabelSelector
  pub namespace_selector : Option LabelSelector

pub record ViolationDetail : Type 0 where
  pub namespace : Str
  pub kind : Str
  pub name : Str
  pub message : Str
  pub timestamp : Str

-- `deny_count` is the bit pattern of an int, of 64 bits.
pub record ManifestIntegrityProfileStatus : Type 0 where
  pub deny_count : ℕ
  pub violations : List ViolationDetail

pub record ManifestIntegrityProfileSpecOf (Parameters : Type 0) (LabelSelector : Type 0)
    : Type 0 where
  pub match : MatchCondition LabelSelector
  pub parameters : Parameters

pub record ManifestIntegrityProfileOf (Parameters : Type 0) (LabelSelector : Type 0) : Type 0 where
  pub name : Str
  pub spec : ManifestIntegrityProfileSpecOf Parameters LabelSelector
  pub status : ManifestIntegrityProfileStatus

module _ {Cluster : Type 0} (S : Sigstore Cluster) (LabelSelector : Type 0) where
  abbrev pub ManifestIntegrityProfileSpec : Type 0
  ManifestIntegrityProfileSpec = ManifestIntegrityProfileSpecOf (ParameterObject S) LabelSelector

  abbrev pub ManifestIntegrityProfile : Type 0
  ManifestIntegrityProfile = ManifestIntegrityProfileOf (ParameterObject S) LabelSelector

-- The detail of a denial, at a time that is printed already.
unfoldable pub violation : Request → Str → Str → ViolationDetail
violation req err_msg timestamp = record {
  namespace = req.namespace;
  kind = req.kind.kind;
  name = req.name;
  message = err_msg;
  timestamp = timestamp;
}

unfoldable pub push_violation :
    ViolationDetail → ManifestIntegrityProfileStatus → ManifestIntegrityProfileStatus
push_violation v status =
    let latest = v ∷ status.violations in
    record {
      deny_count = (status.deny_count + 1) % 2 ^ 64;
      violations =
          if ltb max_history_length (length latest) then take max_history_length latest else latest;
    }

module _ {Cluster : Type 0} (S : Sigstore Cluster) (LabelSelector : Type 0) where
  unfoldable pub update_status :
      ManifestIntegrityProfile S LabelSelector
      → Request
      → Str
      → Str
      → ManifestIntegrityProfile S LabelSelector
  unfolding push_violation violation
  update_status self req err_msg timestamp = record self {
    status = push_violation (violation req err_msg timestamp) self.status;
  }
