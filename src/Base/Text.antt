-- ===== src/Base/Text.antt =====
-- Go's strings: sequences of bytes. A literal is ASCII, so its bytes are its code points.
use Prim.Native.Nat.{ℕ, compare, Ordering}
use Prim.Native.Char.{code}
use Prim.Native.String.{String}
use mathlib.Core.Path.{◌≡◌, refl}
use mathlib.Core.Logic.{◌↔◌}
use mathlib.Core.Bool.{Bool, true, false, ◌&&◌}
use mathlib.Core.List.{List, [], ◌∷◌, ◌++◌}
use native.Mathlib.Omega.{arith}
use integrity_shield.Base.Tests.{if◌then◌else◌}

abbrev pub Str : Type 0
Str = List ℕ

unfoldable pub bytes : String → Str
bytes String.[] = []
bytes (String.◌∷◌ c s) = code c ∷ bytes s

abbrev pub byte_eq : ℕ → ℕ → Bool
byte_eq a b = elim (compare a b) [ Ordering.eq ↦ true | _ ↦ false ]

infix 50 ◌==◌
unfoldable pub ◌==◌ : Str → Str → Bool
[] == [] = true
[] == (_ ∷ _) = false
(_ ∷ _) == [] = false
(a ∷ s) == (b ∷ t) = byte_eq a b && (s == t)

pub ==_iff : (s t : Str) → ((s == t) ≡ true) ↔ (s ≡ t)
unfolding ◌==◌
==_iff [] [] = ground arith
==_iff [] (_ ∷ _) = ground arith
==_iff (_ ∷ _) [] = ground arith
==_iff (a ∷ s) (b ∷ t) = ground (arith, ==_iff s t)

pub ==_refl : (s : Str) → (s == s) ≡ true
==_refl s = (==_iff s s).1 refl

-- `strings.Join`
unfoldable pub join : List Str → Str → Str
join [] sep = []
join (s ∷ []) sep = s
join (s ∷ t ∷ rest) sep = s ++ (sep ++ join (t ∷ rest) sep)

-- `strings.HasPrefix`
unfoldable pub has_prefix : Str → Str → Bool
has_prefix s [] = true
has_prefix [] (_ ∷ _) = false
has_prefix (a ∷ s) (b ∷ p) = byte_eq a b && has_prefix s p

-- The first part of `strings.Split`, for a separator that is not empty.
unfoldable pub first_part : Str → Str → Str
unfolding has_prefix
first_part sep [] = []
first_part sep (c ∷ s) =
    let rest = first_part sep s in if has_prefix (c ∷ s) sep then [] else c ∷ rest

pub byte_eq_iff : (a b : ℕ) → (byte_eq a b ≡ true) ↔ (a ≡ b)
byte_eq_iff a b = ground arith

pub nil-ne-cons : {a : ℕ} {s : Str} → [] ≡ a ∷ s → ⊥
nil-ne-cons e = cc

cons-head : {a b : ℕ} {s t : Str} → a ∷ s ≡ b ∷ t → a ≡ b
cons-head e = cc

cons-tail : {a b : ℕ} {s t : Str} → a ∷ s ≡ b ∷ t → s ≡ t
cons-tail e = cc

cons-cong : {a b : ℕ} {s t : Str} → a ≡ b → s ≡ t → a ∷ s ≡ b ∷ t
cons-cong e f = cc

and-left : (b c : Bool) → (b && c) ≡ true → b ≡ true
and-left b c h = ground arith

and-right : (b c : Bool) → (b && c) ≡ true → c ≡ true
and-right b c h = ground arith

pub has_prefix_iff : (s p : Str) → (has_prefix s p ≡ true) ↔ ((rest : Str) × (s ≡ p ++ rest))
unfolding has_prefix
has_prefix_iff s [] = (λ _. (s, refl), λ _. refl)
has_prefix_iff [] (b ∷ p) = (λ h. ground arith, λ w. absurd (nil-ne-cons w.1))
has_prefix_iff (a ∷ s) (b ∷ p) = (
  λ h.
      let (rest, e) = (has_prefix_iff s p).0 (and-right (byte_eq a b) (has_prefix s p) h) in
      (rest, cons-cong ((byte_eq_iff a b).0 (and-left (byte_eq a b) (has_prefix s p) h)) e),
  λ w.
      ground
        (arith, (has_prefix_iff s p).1 (w.0, cons-tail w.1), (byte_eq_iff a b).1 (cons-head w.1)),
)
