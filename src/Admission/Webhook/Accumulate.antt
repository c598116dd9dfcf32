-- ===== src/Admission/Webhook/Accumulate.antt =====
-- How the results of the profiles are accumulated (`getAccumulatedResult` and the mode check of
-- admission-controller/pkg/controller/webhook.go).
use mathlib.Core.List.{append_assoc, append-nil}
use integrity_shield.Base.{
  Str, bytes, join, ◌≡◌, refl, sym, Bool, true, false, false≢true, List, [], ◌∷◌, ◌++◌, map,
  if◌then◌else◌, not, any, keep, is_empty-keep, keep_all, is_empty-map, not-not, arith, ◌↔◌, inl,
  inr, Bool-cases,
}
use integrity_shield.Server.Shield.Request.{ResultFromRequestHandler}
use integrity_shield.Admission.Webhook.{
  allowed, denied, profile_message, accumulate_loop, get_accumulated_result, apply_mode, respond,
}

abbrev pub is_denial : ResultFromRequestHandler → Bool
is_denial r = not r.allow

abbrev is_allowance : ResultFromRequestHandler → Bool
is_allowance r = r.allow

accumulate_loop_lem :
    (results : List ResultFromRequestHandler) (deny allow : List Str)
    → accumulate_loop results deny allow ≡ (
      deny ++ map profile_message (keep is_denial results),
      allow ++ map profile_message (keep is_allowance results),
    )
unfolding accumulate_loop keep
accumulate_loop_lem [] deny allow = rw (append-nil, append-nil)
accumulate_loop_lem (r ∷ results) deny allow = elim (Bool-cases (r.allow)) [
  | inl e ↦ ground (
    arith,
    accumulate_loop_lem results deny (allow ++ (profile_message r ∷ [])),
    append_assoc allow (profile_message r ∷ []) (map profile_message (keep is_allowance results)),
  )
  | inr e ↦ ground (
    arith,
    accumulate_loop_lem results (deny ++ (profile_message r ∷ [])) allow,
    append_assoc deny (profile_message r ∷ []) (map profile_message (keep is_denial results)),
  )
]

-- The results are accumulated to a denial exactly when one of them is a denial. The message joins
-- those of the denials, each behind its profile, or those of all results if there is no denial.
pub get_accumulated_result_lem :
    (results : List ResultFromRequestHandler)
    → get_accumulated_result results ≡ record {
      allow = not (any is_denial results);
      message =
          join
            (map profile_message
              (if any is_denial results then keep is_denial results else results))
            (bytes ";");
    }
unfolding get_accumulated_result
get_accumulated_result_lem results = ground (
  arith,
  accumulate_loop_lem results [] [],
  is_empty-map profile_message (keep is_denial results),
  is_empty-keep is_denial results,
  keep_all is_allowance is_denial results (λ r. not-not (r.allow)),
)

pub any-nil : any is_denial [] ≡ true → ⊥
unfolding any
any-nil e = false≢true e

pub allowed-ne-denied : {m n : Str} → allowed m ≡ denied n → ⊥
allowed-ne-denied e = cc

mode_split :
    (d b : Bool) (message : Str)
    → ((m : Str) × (respond (apply_mode d (record { allow = not b; message = message }))
          ≡ denied m))
      ↔ ((d ≡ false) × (b ≡ true))
unfolding respond apply_mode
mode_split true true message =
    (λ w. absurd (allowed-ne-denied w.1), λ w. absurd (false≢true (sym w.0)))
mode_split true false message = (λ w. absurd (allowed-ne-denied w.1), λ w. absurd (false≢true w.1))
mode_split false true message = (λ _. (refl, refl), λ _. (message, refl))
mode_split false false message = (λ w. absurd (allowed-ne-denied w.1), λ w. absurd (false≢true w.1))

pub respond_iff :
    (d : Bool) (results : List ResultFromRequestHandler)
    → ((m : Str) × (respond (apply_mode d (get_accumulated_result results)) ≡ denied m))
      ↔ ((d ≡ false) × (any is_denial results ≡ true))
respond_iff d results =
    rw (get_accumulated_result_lem results) (mode_split d (any is_denial results) _)
