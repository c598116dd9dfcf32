-- ===== src/Base/Lists.antt =====
-- Lists measured by native numbers, and the loops over slices that the program writes.
use Prim.Native.Nat.{ℕ, zero, suc, ◌+◌, min}
use mathlib.Core.Path.{◌≡◌, refl, sym, ap, ◌∙◌}
use mathlib.Core.Logic.{◌↔◌, ◌⊎◌, inl, inr}
use mathlib.Core.Bool.{Bool, true, false, false≢true, not, ◌||◌}
use mathlib.Core.List.{List, [], ◌∷◌, ◌++◌, map, Memᴰ}
use native.Mathlib.Omega.{arith}
use integrity_shield.Base.Tests.{if◌then◌else◌, Bool-cases}

module _ {ℓ} {A : Type ℓ} where
  -- `len`
  abbrev pub length : List A → ℕ
  length [] = 0
  length (x ∷ xs) = suc (length xs)

  -- `len(xs) == 0`
  abbrev pub is_empty : List A → Bool
  is_empty [] = true
  is_empty (_ ∷ _) = false

  -- `xs[:n]`
  abbrev pub take : ℕ → List A → List A
  take zero xs = []
  take (suc n) [] = []
  take (suc n) (x ∷ xs) = x ∷ take n xs

  abbrev pub replicate : ℕ → A → List A
  replicate zero x = []
  replicate (suc n) x = x ∷ replicate n x

  -- A loop that returns true at the first element which passes, and false at the end.
  unfoldable pub any : (A → Bool) → List A → Bool
  any p [] = false
  any p (x ∷ xs) = if p x then true else any p xs

  -- A loop that goes through all elements and sets a flag at each one which passes.
  unfoldable pub flag_loop : (A → Bool) → Bool → List A → Bool
  flag_loop p flag [] = flag
  flag_loop p flag (x ∷ xs) = flag_loop p (if p x then true else flag) xs

  -- An element that passes.
  abbrev pub Passes : (A → Bool) → List A → Type ℓ
  Passes p xs = (x : A) × Memᴰ x xs × (p x ≡ true)

  -- Every element passes.
  abbrev pub All {κ} : (A → Type κ) → List A → Type κ
  All P [] = Unit
  All P (x ∷ xs) = P x × All P xs

module _ {ℓ} {A : Type ℓ} where
  pub length-append : (xs ys : List A) → length (xs ++ ys) ≡ length xs + length ys
  length-append [] ys = omega arith
  length-append (x ∷ xs) ys = omega (arith, length-append xs ys)

  pub length-take : (n : ℕ) (xs : List A) → length (take n xs) ≡ min n (length xs)
  length-take zero xs = omega arith
  length-take (suc n) [] = omega arith
  length-take (suc n) (x ∷ xs) = omega (arith, length-take n xs)

  pub any-Passes : (p : A → Bool) (xs : List A) → any p xs ≡ true → Passes p xs
  unfolding any
  any-Passes p [] h = ground arith
  any-Passes p (x ∷ xs) h = elim (Bool-cases (p x)) [
    | inl e ↦ (x, Memᴰ.head refl, e)
    | inr e ↦ let (y, m, q) = any-Passes p xs (rw e at h) in (y, Memᴰ.tail m, q)
  ]

  pub any_of_mem : (p : A → Bool) {x : A} {xs : List A} → Memᴰ x xs → p x ≡ true → any p xs ≡ true
  unfolding any
  any_of_mem p (Memᴰ.head e) h = ground (arith, ap p e)
  any_of_mem p (Memᴰ.tail m) h = ground (arith, any_of_mem p m h)

  pub any_iff : (p : A → Bool) (xs : List A) → (any p xs ≡ true) ↔ Passes p xs
  any_iff p xs = (any-Passes p xs, λ w. any_of_mem p w.1 w.2)

  pub flag_loop-any :
      (p : A → Bool) (flag : Bool) (xs : List A) → flag_loop p flag xs ≡ (flag || any p xs)
  unfolding flag_loop any
  flag_loop-any p flag [] = ground arith
  flag_loop-any p flag (x ∷ xs) = ground (arith, flag_loop-any p (if p x then true else flag) xs)

module _ {ℓ} {A : Type ℓ} where
  pub append-replicate :
      (n : ℕ) (x : A) (xs : List A) → (xs ++ (x ∷ [])) ++ replicate n x ≡ xs ++ replicate (suc n) x
  append-replicate n x [] = refl
  append-replicate n x (y ∷ xs) = ap (λ t. y ∷ t) (append-replicate n x xs)

pub length-map {ℓ κ} :
    {A : Type ℓ} {B : Type κ} (xs : List A) (f : A → B) → length (map f xs) ≡ length xs
length-map [] f = refl
length-map (x ∷ xs) f = ap suc (length-map xs f)

module _ {ℓ} {A : Type ℓ} where
  -- What a loop that sets a flag comes to.
  pub flag_loop_iff :
      (p : A → Bool) (flag : Bool) (xs : List A)
      → (flag_loop p flag xs ≡ true) ↔ ((flag ≡ true) ⊎ Passes p xs)
  flag_loop_iff p true xs = (λ _. inl refl, λ _. flag_loop-any p true xs)
  flag_loop_iff p false xs = (
    λ h. inr ((any_iff p xs).0 (sym (flag_loop-any p false xs) ∙ h)),
    elim [ inl e ↦ absurd (false≢true e) | inr w ↦ flag_loop-any p false xs ∙ (any_iff p xs).1 w ],
  )

  -- The same where an empty list passes at once.
  pub empty_or_flag_iff :
      (p : A → Bool) (flag : Bool) (xs : List A)
      → ((if is_empty xs then true else flag_loop p flag xs) ≡ true)
        ↔ ((xs ≡ []) ⊎ (flag ≡ true) ⊎ Passes p xs)
  empty_or_flag_iff p flag [] = (λ _. inl refl, λ _. refl)
  empty_or_flag_iff p flag (x ∷ xs) = (
    λ h. inr ((flag_loop_iff p flag (x ∷ xs)).0 h),
    elim [ inl e ↦ absurd (cons-ne-nil e) | inr w ↦ (flag_loop_iff p flag (x ∷ xs)).1 w ],
  )
    where
      cons-ne-nil : x ∷ xs ≡ [] → ⊥
      cons-ne-nil e = cc

  -- The same with a flag that is false at first.
  pub empty_or_any_iff :
      (p : A → Bool) (xs : List A)
      → ((if is_empty xs then true else flag_loop p false xs) ≡ true) ↔ ((xs ≡ []) ⊎ Passes p xs)
  empty_or_any_iff p xs = (
    λ h. elim ((empty_or_flag_iff p false xs).0 h) [
      | inl e ↦ inl e
      | inr (inl e) ↦ absurd (false≢true e)
      | inr (inr w) ↦ inr w
    ],
    λ h. (empty_or_flag_iff p false xs).1 (elim h [ inl e ↦ inl e | inr w ↦ inr (inr w) ]),
  )

module _ {ℓ} {A : Type ℓ} where
  pub any-false_iff : (p : A → Bool) (xs : List A) → (any p xs ≡ false) ↔ (¬ Passes p xs)
  any-false_iff p xs = (
    λ h w. false≢true (sym h ∙ (any_iff p xs).1 w),
    λ n. elim (Bool-cases (any p xs)) [ inl e ↦ absurd (n ((any_iff p xs).0 e)) | inr e ↦ e ],
  )

module _ {ℓ} {A : Type ℓ} where
  -- The elements that pass, in their order.
  unfoldable pub keep : (A → Bool) → List A → List A
  keep p [] = []
  keep p (x ∷ xs) = let rest = keep p xs in if p x then x ∷ rest else rest

  pub is_empty-keep : (p : A → Bool) (xs : List A) → is_empty (keep p xs) ≡ not (any p xs)
  unfolding keep any
  is_empty-keep p [] = refl
  is_empty-keep p (x ∷ xs) = ground (arith, is_empty-keep p xs)

  pub keep_all :
      (p q : A → Bool) (xs : List A)
      → ((x : A) → p x ≡ not (q x))
      → any q xs ≡ false
      → keep p xs ≡ xs
  unfolding keep any
  keep_all p q [] opposite h = refl
  keep_all p q (x ∷ xs) opposite h = ground (arith, opposite x, keep_all p q xs opposite)

  pub any-append : (p : A → Bool) (xs ys : List A) → any p (xs ++ ys) ≡ (any p xs || any p ys)
  unfolding any
  any-append p [] ys = ground arith
  any-append p (x ∷ xs) ys = ground (arith, any-append p xs ys)

pub is_empty-map {ℓ κ} :
    {A : Type ℓ} {B : Type κ} (f : A → B) (xs : List A) → is_empty (map f xs) ≡ is_empty xs
is_empty-map f [] = refl
is_empty-map f (x ∷ xs) = refl

module _ {ℓ} {A : Type ℓ} where
  pub any-snoc :
      (p : A → Bool) (xs : List A) (y : A)
      → (any p (xs ++ (y ∷ [])) ≡ true) ↔ ((any p xs ≡ true) ⊎ (p y ≡ true))
  any-snoc p xs y = ground (arith, any-append p xs (y ∷ []), any-one)
    where
      any-one : any p (y ∷ []) ≡ p y
      any-one = unfold any in ground arith
