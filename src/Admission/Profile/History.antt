-- ===== src/Admission/Profile/History.antt =====
-- The history of a profile over any number of denials
-- (admission-controller/pkg/apis/manifestintegrityprofile/v1alpha1/types.go).
use mathlib.Core.List.{reverse, reverse-cons, append_assoc}
use integrity_shield.Base.{
  ℕ, zero, suc, ◌+◌, ◌%◌, ◌^◌, ◌≤◌, ◌≡◌, refl, sym, ◌∙◌, ap, List, [], ◌∷◌, ◌++◌, length, take,
  arith, length-take, map, length-map, Str, ◌<◌,
}
use integrity_shield.External.Sigstore.{Sigstore}
use integrity_shield.Server.Shield.Request.{Request}
use integrity_shield.Admission.Profile.{
  ManifestIntegrityProfile, violation, update_status, ViolationDetail,
  ManifestIntegrityProfileStatus, max_history_length, push_violation,
}

-- The denials of a list, the first one first.
unfoldable pub push_violations :
    List ViolationDetail → ManifestIntegrityProfileStatus → ManifestIntegrityProfileStatus
push_violations [] status = status
push_violations (v ∷ vs) status = push_violations vs (push_violation v status)

take_all {ℓ} : {A : Type ℓ} (n : ℕ) (xs : List A) → length xs ≤ n → take n xs ≡ xs
take_all zero [] h = refl
take_all zero (x ∷ xs) h = absurd (omega arith)
take_all (suc n) [] h = refl
take_all (suc n) (x ∷ xs) h = ap (λ t. x ∷ t) (take_all n xs (omega arith))

push_violation_violations :
    (v : ViolationDetail) (status : ManifestIntegrityProfileStatus)
    → (push_violation v status).violations ≡ take max_history_length (v ∷ status.violations)
unfolding push_violation
push_violation_violations v status =
    ground (arith, take_all max_history_length (v ∷ status.violations))

take-append-take {ℓ} :
    {A : Type ℓ} (n m : ℕ) (xs ys : List A) → n ≤ m → take n (xs ++ take m ys) ≡ take n (xs ++ ys)
take-append-take zero m xs ys h = refl
take-append-take (suc n) zero xs ys h = absurd (omega arith)
take-append-take (suc n) (suc m) [] [] h = refl
take-append-take (suc n) (suc m) [] (y ∷ ys) h =
    ap (λ t. y ∷ t) (take-append-take n m [] ys (omega arith))
take-append-take (suc n) (suc m) (x ∷ xs) ys h =
    ap (λ t. x ∷ t) (take-append-take n (suc m) xs ys (omega arith))

push_violations_violations :
    (vs : List ViolationDetail) (status : ManifestIntegrityProfileStatus)
    → length status.violations ≤ max_history_length
    → (push_violations vs status).violations
      ≡ take max_history_length (reverse vs ++ status.violations)
unfolding push_violations
push_violations_violations [] status h = sym (take_all max_history_length status.violations h)
push_violations_violations (v ∷ vs) status h =
    push_violations_violations vs (push_violation v status) (
      rw (push_violation_violations v status)
        (omega (arith, length-take {0} max_history_length (v ∷ status.violations))))
    ∙ ap (λ (t : List ViolationDetail). take max_history_length (reverse vs ++ t))
        (push_violation_violations v status)
    ∙ take-append-take max_history_length max_history_length (reverse vs) (v ∷ status.violations)
        (omega arith)
    ∙ ap (take max_history_length) (
        sym (append_assoc (reverse vs) (v ∷ []) status.violations)
        ∙ ap (λ (t : List ViolationDetail). t ++ status.violations) (sym (reverse-cons v vs)))

push_violations_count :
    (vs : List ViolationDetail) (status : ManifestIntegrityProfileStatus)
    → status.deny_count < 2 ^ 64
    → (push_violations vs status).deny_count ≡ (status.deny_count + length vs) % 2 ^ 64
unfolding push_violations push_violation
push_violations_count [] status h = omega arith
push_violations_count (v ∷ vs) status h =
    omega (arith, push_violations_count vs (push_violation v status))

-- A denial: the request, the message, and the time as it is printed.
pub record Denial : Type 0 where
  pub request : Request
  pub message : Str
  pub timestamp : Str

abbrev pub detail : Denial → ViolationDetail
detail d = violation d.request d.message d.timestamp

module _ {Cluster : Type 0} (S : Sigstore Cluster) (LabelSelector : Type 0) where
  -- The denials of a list, the first one first.
  unfoldable pub update_statuses :
      ManifestIntegrityProfile S LabelSelector
      → List Denial
      → ManifestIntegrityProfile S LabelSelector
  update_statuses mip [] = mip
  update_statuses mip (d ∷ ds) =
      update_statuses (update_status S LabelSelector mip d.request d.message d.timestamp) ds

  update_statuses_push :
      (mip : ManifestIntegrityProfile S LabelSelector) (ds : List Denial)
      → update_statuses mip ds ≡ record mip { status = push_violations (map detail ds) mip.status }
  unfolding update_statuses update_status push_violations
  update_statuses_push mip [] = refl
  update_statuses_push mip (d ∷ ds) =
      update_statuses_push (update_status S LabelSelector mip d.request d.message d.timestamp) ds

  -- After any denials the count of a profile has grown by their number, as a 64-bit integer, its
  -- violations are the latest ten of all that there were, the newest first, and the rest of it is
  -- unchanged; the history before them is taken to have ten entries at most.
  pub update_statuses_lem :
      (mip : ManifestIntegrityProfile S LabelSelector) (ds : List Denial)
      → mip.status.deny_count < 2 ^ 64
      → length mip.status.violations ≤ 10
      → update_statuses mip ds ≡ record mip {
        status = record {
          deny_count = (mip.status.deny_count + length ds) % 2 ^ 64;
          violations = take 10 (reverse (map detail ds) ++ mip.status.violations);
        };
      }
  update_statuses_lem mip ds small short =
      update_statuses_push mip ds
      ∙ ap (λ (t : ManifestIntegrityProfileStatus). record mip { status = t })
          (λ i. record {
            deny_count = counted i;
            violations = push_violations_violations (map detail ds) mip.status short i;
          })
    where
      counted :
          (push_violations (map detail ds) mip.status).deny_count
          ≡ (mip.status.deny_count + length ds) % 2 ^ 64
      counted = rw (push_violations_count (map detail ds) mip.status small, length-map ds detail)
