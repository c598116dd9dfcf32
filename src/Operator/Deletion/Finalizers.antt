-- ===== src/Operator/Deletion/Finalizers.antt =====
-- What becomes of the finalizers (integrity-shield-operator/controllers/integrityshield_controller.go).
use integrity_shield.Base.{
  Str, ◌==◌, ==_iff, ◌≡◌, ◌≢◌, refl, sym, ◌∙◌, ap, if◌then◌else◌, Bool-cases, inl, inr, true, false,
  List, [], ◌∷◌, any, keep,
}
use integrity_shield.Operator.Deletion.{contains_string, remove_string}

remove_string_self :
    (slice : List Str) (s : Str) → contains_string (remove_string slice s) s ≡ false
unfolding contains_string remove_string any keep
remove_string_self [] s = refl
remove_string_self (x ∷ xs) s = elim (Bool-cases (x == s)) [
  | inl e ↦ rw e (remove_string_self xs s)
  | inr e ↦ rw e (rw e (remove_string_self xs s))
]

remove_string_other :
    (slice : List Str) (s t : Str)
    → s ≢ t
    → contains_string (remove_string slice s) t ≡ contains_string slice t
unfolding contains_string remove_string any keep
remove_string_other [] s t differ = refl
remove_string_other (x ∷ xs) s t differ = elim (Bool-cases (x == s)) [
  | inl e ↦ elim (Bool-cases (x == t)) [
    | inl f ↦ absurd (differ (sym ((==_iff x s).0 e) ∙ (==_iff x t).0 f))
    | inr f ↦ rw e (rw f (remove_string_other xs s t differ))
  ]
  | inr e ↦ rw e (ap (λ b. if x == t then true else b) (remove_string_other xs s t differ))
]

-- A string that is removed from a slice is not in it any more, and each other string is in it
-- exactly if it was before.
pub contains_string-remove_string :
    (slice : List Str) (s t : Str)
    → (contains_string (remove_string slice s) s ≡ false)
      × (s ≢ t → contains_string (remove_string slice s) t ≡ contains_string slice t)
contains_string-remove_string slice s t =
    (remove_string_self slice s, remove_string_other slice s t)
