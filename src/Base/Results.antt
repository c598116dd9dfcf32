-- ===== src/Base/Results.antt =====
-- Go's `(value, error)` results, the errors of the Kubernetes client, and panics.
use mathlib.Core.Path.{◌≡◌, refl}
use mathlib.Core.Logic.{◌⊎◌, inl, inr}
use mathlib.Core.Bool.{Bool, true, false}
use integrity_shield.Base.Text.{Str}

pub data Reason : Type 0 where
  not_found already_exists other : Reason

-- `message` is what `Error()` prints.
pub record Error : Type 0 where
  pub reason : Reason
  pub message : Str

-- `errors.IsNotFound`
abbrev pub is_not_found : Error → Bool
is_not_found e = elim (e.reason) [ not_found ↦ true | _ ↦ false ]

-- `errors.IsAlreadyExists`
abbrev pub is_already_exists : Error → Bool
is_already_exists e = elim (e.reason) [ already_exists ↦ true | _ ↦ false ]

pub data Result {ℓ} (A : Type ℓ) : Type ℓ where
  ok : A → Result A
  err : Error → Result A

pub Result-cases {ℓ} :
    {A : Type ℓ} (r : Result A) → ((a : A) × (r ≡ ok a)) ⊎ ((e : Error) × (r ≡ err e))
Result-cases (ok a) = inl (a, refl)
Result-cases (err e) = inr (e, refl)

-- What a call comes back with: a value, or a panic, such as the use of a nil pointer.
pub data Outcome {ℓ} (A : Type ℓ) : Type ℓ where
  returns : A → Outcome A
  panics : Outcome A

pub ok-injective {ℓ} : {A : Type ℓ} {a b : A} → ok a ≡ ok b → a ≡ b
ok-injective h = cc

-- What a call that returns leaves, of which `P` holds.
abbrev pub Returns {ℓ} : {A : Type ℓ} → (A → Type 0) → Outcome A → Type 0
Returns P (returns a) = P a
Returns P panics = ⊥

pub err-ne-ok {ℓ} : {A : Type ℓ} {e : Error} {a : A} → err e ≡ ok a → ⊥
err-ne-ok h = cc

pub returns-injective {ℓ} : {A : Type ℓ} {a b : A} → returns a ≡ returns b → a ≡ b
returns-injective h = cc
