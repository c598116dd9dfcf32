-- ===== src/Server/Parameter/Bindings.antt =====
-- When a list of bindings of objects to users matches (integrity-shield-server/pkg/config/parameter.go).
use integrity_shield.Base.{Str, true, List, [], ◌∷◌, any, ◌≡◌, ◌↔◌, any_iff, arith, Memᴰ}
use integrity_shield.External.Sigstore.{Sigstore}
use integrity_shield.Server.Parameter.{ObjectUserBinding, binding_match, binding_list_match}

module _ {Cluster : Type 0} (S : Sigstore Cluster) where
  -- A binding of the list whose objects and users both match.
  abbrev pub Binds : List (ObjectUserBinding S) → S.Object → Str → Type 0
  Binds l obj username =
      (u : ObjectUserBinding S) × Memᴰ u l
      × (S.reference_list_match u.objects obj ≡ true)
      × (S.match_with_pattern_array username u.users ≡ true)

  binding_match_lem :
      (u : ObjectUserBinding S) (obj : S.Object) (username : Str)
      → (binding_match S u obj username ≡ true) ↔ (
          (S.reference_list_match u.objects obj ≡ true)
          × (S.match_with_pattern_array username u.users ≡ true))
  unfolding binding_match
  binding_match_lem u obj username = ground arith

  binding_list_match-any :
      (l : List (ObjectUserBinding S)) (obj : S.Object) (username : Str)
      → binding_list_match S l obj username ≡ any (λ u. binding_match S u obj username) l
  unfolding binding_list_match any
  binding_list_match-any [] obj username = ground arith
  binding_list_match-any (u ∷ l) obj username = ground arith

  -- The list matches exactly when one of its bindings names the object and the user.
  pub binding_list_match_iff :
      (l : List (ObjectUserBinding S)) (obj : S.Object) (username : Str)
      → (binding_list_match S l obj username ≡ true) ↔ Binds l obj username
  binding_list_match_iff l obj username =
      let p = λ (u : ObjectUserBinding S). binding_match S u obj username in
      (
        λ h.
            let (u, m, q) = (any_iff p l).0 (rw (binding_list_match-any l obj username) at h) in
            let (o, n) = (binding_match_lem u obj username).0 q in (u, m, o, n),
        λ w.
            rw (binding_list_match-any l obj username)
              ((any_iff p l).1 (w.0, w.1, (binding_match_lem w.0 obj username).1 (w.2, w.3))),
      )
