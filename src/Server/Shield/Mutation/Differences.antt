-- ===== src/Server/Shield/Mutation/Differences.antt =====
-- When an update counts as a mutation (`mutationCheck` of
-- integrity-shield-server/pkg/shield/request_handler.go).
use integrity_shield.Base.{
  ◌<◌, Str, ◌≡◌, true, List, [], ◌∷◌, none, some, ok, arith, any_iff, Passes, ◌↔◌, Option-cases,
  inl, inr, sym, ◌∙◌, ap, ok-injective,
}
use integrity_shield.External.Sigstore.{Sigstore}
use integrity_shield.Server.Shield.Mutation.{
  masked, unmatched_diff, mutation_check, skip_objects_match,
}

module _ {Cluster : Type 0} (S : Sigstore Cluster) where
  open S use {
    Object, ObjectReference, Node, DiffResult, new_from_bytes, diff, diff_size, unfiltered,
  }

  -- A list of references to skip matches exactly when one of them matches the object.
  pub skip_objects_match_iff :
      (l : List ObjectReference) (obj : Object)
      → (skip_objects_match S l obj ≡ true) ↔ Passes (λ r. S.reference_match r obj) l
  unfolding skip_objects_match
  skip_objects_match_iff [] obj = any_iff (λ (r : ObjectReference). S.reference_match r obj) []
  skip_objects_match_iff (r ∷ l) obj =
      any_iff (λ (q : ObjectReference). S.reference_match q obj) (r ∷ l)

  -- A difference of two masked objects that the ignored fields do not cover.
  pub data Differs (old v : Node) (ignore_fields : List Str) : Type 0 where
    differs :
        (dr : DiffResult)
        → diff (masked S old) (masked S v) ≡ some dr
        → 0 < diff_size dr
        → 0 < diff_size (unfiltered dr ignore_fields)
        → Differs old v ignore_fields

  unmatched_diff-some :
      (dr : DiffResult) (ignore_fields : List Str)
      → (unmatched_diff S (some dr) ignore_fields ≡ true)
        ↔ ((0 < diff_size dr) × (0 < diff_size (unfiltered dr ignore_fields)))
  unfolding unmatched_diff
  unmatched_diff-some dr ignore_fields = ground arith

  unmatched_diff_iff :
      (old v : Node) (ignore_fields : List Str)
      → (unmatched_diff S (diff (masked S old) (masked S v)) ignore_fields ≡ true)
        ↔ Differs old v ignore_fields
  unmatched_diff_iff old v ignore_fields = (
    λ h. elim (Option-cases (diff (masked S old) (masked S v))) [
      | inl e ↦ absurd (none_case e h)
      | inr (dr, e) ↦
          let sizes = (unmatched_diff-some dr ignore_fields).0 (rw e at h) in
          differs dr e sizes.0 sizes.1
    ],
    from_differs,
  )
    where
      none_case :
          diff (masked S old) (masked S v) ≡ none
          → unmatched_diff S (diff (masked S old) (masked S v)) ignore_fields ≡ true
          → ⊥
      none_case e h = unfold unmatched_diff in ground arith

      from_differs :
          Differs old v ignore_fields
          → unmatched_diff S (diff (masked S old) (masked S v)) ignore_fields ≡ true
      from_differs (differs dr e p q) = rw e ((unmatched_diff-some dr ignore_fields).1 (p, q))

  module _ (raw_old raw : Str) (ignore_fields : List Str) {old v : Node}
      (new_parses : new_from_bytes raw ≡ ok (some v))
      (old_parses : new_from_bytes raw_old ≡ ok (some old)) where
    mutation_check-parsed :
        mutation_check S raw_old raw ignore_fields
        ≡ ok (unmatched_diff S (diff (masked S old) (masked S v)) ignore_fields)
    unfolding mutation_check
    mutation_check-parsed = rw (new_parses, mutation_check) (rw (old_parses, mutation_check))

    -- Of two objects that parse, the check finds a mutation exactly when their masked forms have a
    -- difference that the ignored fields do not cover.
    pub mutation_check_iff :
        (mutation_check S raw_old raw ignore_fields ≡ ok true) ↔ Differs old v ignore_fields
    mutation_check_iff = (
      λ h.
          (unmatched_diff_iff old v ignore_fields).0 (ok-injective (sym mutation_check-parsed ∙ h)),
      λ d. mutation_check-parsed ∙ ap ok ((unmatched_diff_iff old v ignore_fields).1 d),
    )
