-- ===== src/Server/Parameter.antt =====
-- integrity-shield-server/pkg/config/parameter.go: the parameters of a constraint.
pub mod Bindings
use integrity_shield.Base.{
  Str, Bool, true, false, List, [], any, is_empty, ◌&&◌, if◌then◌else◌, ◌≡◌, refl, ◌↔◌, any_iff,
  Passes, arith, ◌∷◌,
}
use integrity_shield.External.Sigstore.{Sigstore, VerifyResourceOption}

pub record KeyConfig : Type 0 where
  pub key_secret_name : Str
  pub key_secret_namespace : Str

pub record ObjectUserBindingOf (ObjectReference : Type 0) : Type 0 where
  pub objects : List ObjectReference
  pub users : List Str

-- `VerifyResourceOption` is embedded; `image_ref` beside it is the field of the outer struct.
pub record ParameterObjectOf (ObjectReference : Type 0) (ObjectFieldBinding : Type 0) : Type 0 where
  pub verify_resource_option : VerifyResourceOption ObjectFieldBinding
  pub key_configs : List KeyConfig
  pub image_ref : Str
  pub in_scope_objects : List ObjectReference
  pub skip_users : List (ObjectUserBindingOf ObjectReference)
  pub target_service_account : List Str
  pub constraint_name : Str

module _ {Cluster : Type 0} (S : Sigstore Cluster) where
  open S use {Object, ObjectReference, ObjectFieldBinding, reference_list_match}
  open S use {match_with_pattern_array}

  abbrev pub ObjectUserBinding : Type 0
  ObjectUserBinding = ObjectUserBindingOf ObjectReference

  abbrev pub ParameterObject : Type 0
  ParameterObject = ParameterObjectOf ObjectReference ObjectFieldBinding

  unfoldable pub binding_match : ObjectUserBinding → Object → Str → Bool
  binding_match u obj username =
      if reference_list_match u.objects obj
      then (if match_with_pattern_array username u.users then true else false)
      else false

  unfoldable pub binding_list_match : List ObjectUserBinding → Object → Str → Bool
  unfolding any
  binding_list_match l obj username =
      if is_empty l then false else any (λ u. binding_match u obj username) l
