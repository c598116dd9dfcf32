-- ===== src/Base/Counts.antt =====
-- How many elements of a list do not pass a test.
use Prim.Native.Nat.{ℕ, suc, ◌≤◌, ◌<◌}
use mathlib.Core.Path.{◌≡◌, refl, ap}
use mathlib.Core.Logic.{inl, inr}
use mathlib.Core.Bool.{Bool, true, false}
use mathlib.Core.List.{List, [], ◌∷◌, Memᴰ}
use native.Mathlib.Omega.{arith}
use integrity_shield.Base.Tests.{Bool-cases}
use integrity_shield.Base.Lists.{length}

module _ {A : Type 0} where
  -- How many elements do not pass.
  unfoldable pub lacking : (A → Bool) → List A → ℕ
  lacking f [] = 0
  lacking f (x ∷ xs) = let rest = lacking f xs in elim (f x) [ true ↦ rest | false ↦ suc rest ]

  pub lacking-length : (f : A → Bool) (xs : List A) → lacking f xs ≤ length xs
  unfolding lacking
  lacking-length f [] = ground arith
  lacking-length f (x ∷ xs) = elim (Bool-cases (f x)) [
    | inl p ↦ ground (arith, lacking-length f xs)
    | inr p ↦ ground (arith, lacking-length f xs)
  ]

  pub lacking_mono :
      (f g : A → Bool) (xs : List A)
      → ((x : A) → Memᴰ x xs → f x ≡ true → g x ≡ true)
      → lacking g xs ≤ lacking f xs
  unfolding lacking
  lacking_mono f g [] h = ground arith
  lacking_mono f g (x ∷ xs) h = elim (Bool-cases (f x)) [
    | inl p ↦ ground (arith, h x (Memᴰ.head refl) p, lacking_mono f g xs (λ y m. h y (Memᴰ.tail m)))
    | inr p ↦ elim (Bool-cases (g x)) [
      | inl q ↦ ground (arith, lacking_mono f g xs (λ y m. h y (Memᴰ.tail m)))
      | inr q ↦ ground (arith, lacking_mono f g xs (λ y m. h y (Memᴰ.tail m)))
    ]
  ]

  pub lacking_lt :
      (f g : A → Bool) (xs : List A) {x : A}
      → ((x : A) → Memᴰ x xs → f x ≡ true → g x ≡ true)
      → Memᴰ x xs
      → f x ≡ false
      → g x ≡ true
      → lacking g xs < lacking f xs
  unfolding lacking
  lacking_lt f g [] h m p q = elim m [ ]
  lacking_lt f g (y ∷ ys) h (Memᴰ.head e) p q =
      ground (arith, ap f e, ap g e, lacking_mono f g ys (λ z m. h z (Memᴰ.tail m)))
  lacking_lt f g (y ∷ ys) h (Memᴰ.tail m) p q = elim (Bool-cases (f y)) [
    | inl r ↦
        ground (arith, h y (Memᴰ.head refl) r, lacking_lt f g ys (λ z k. h z (Memᴰ.tail k)) m p q)
    | inr r ↦ elim (Bool-cases (g y)) [
      | inl s ↦ ground (arith, lacking_lt f g ys (λ z k. h z (Memᴰ.tail k)) m p q)
      | inr s ↦ ground (arith, lacking_lt f g ys (λ z k. h z (Memᴰ.tail k)) m p q)
    ]
  ]
