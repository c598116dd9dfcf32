-- ===== src/Observer/Pattern/Globs.antt =====
-- What the patterns of the observer match (observer/pkg/observer/observer.go).
use mathlib.Core.List.{append_assoc}
use integrity_shield.Base.{
  ℕ, zero, suc, Str, bytes, ◌==◌, ==_iff, byte_eq, byte_eq_iff, has_prefix, has_prefix_iff, ◌≡◌,
  ◌≢◌, subst, ◌+◌, refl, sym, ◌∙◌, ap, Bool, true, false, false≢true, List, [], ◌∷◌, ◌++◌, is_empty,
  replicate, if◌then◌else◌, ◌&&◌, arith, ◌↔◌, ◌⊎◌, inl, inr, Bool-cases, Passes, flag_loop, any_iff,
  any-false_iff, flag_loop-any,
}
use integrity_shield.Observer.Pattern.{
  star, ends_in_star, trim_stars, match_pattern, Rule, check_if_inscope_constraint,
}

trim_stars_append : (l : Str) (k : ℕ) → trim_stars (l ++ replicate k star) ≡ trim_stars l
unfolding trim_stars
trim_stars_append [] zero = refl
trim_stars_append [] (suc k) = ground (arith, trim_stars_append [] k)
trim_stars_append (c ∷ l) k = ground (arith, trim_stars_append l k)

trim_stars-cons :
    (c : ℕ) (s : Str)
    → trim_stars (c ∷ s)
      ≡ (if is_empty (trim_stars s) && byte_eq c star then [] else c ∷ trim_stars s)
unfolding trim_stars
trim_stars-cons c s = refl

rest-cons :
    (c : ℕ) (s t : Str) (k : ℕ)
    → s ≡ t ++ replicate k star
    → (j : ℕ) × (c ∷ s ≡ (if is_empty t && byte_eq c star then [] else c ∷ t) ++ replicate j star)
rest-cons c s (d ∷ t) k e = (k, λ i. c ∷ e i)
rest-cons c s [] k e = elim (Bool-cases (byte_eq c star)) [
  | inl same ↦ (suc k, rw same (ground (arith, byte_eq_iff c star)))
  | inr differ ↦ (k, rw differ (λ i. c ∷ e i))
]

-- A text is what is left of it without its stars, and its stars.
trim_stars_rest : (s : Str) → (k : ℕ) × (s ≡ trim_stars s ++ replicate k star)
trim_stars_rest [] = (0, unfold trim_stars in refl)
trim_stars_rest (c ∷ s) =
    let (k, e) = trim_stars_rest s in rw (trim_stars-cons c s) (rest-cons c s (trim_stars s) k e)

ends-replicate : (k : ℕ) → ends_in_star (replicate (suc k) star) ≡ true
unfolding ends_in_star
ends-replicate zero = refl
ends-replicate (suc k) = ends-replicate k

ends-cons : (c : ℕ) (s : Str) → ends_in_star s ≡ true → ends_in_star (c ∷ s) ≡ true
unfolding ends_in_star
ends-cons c [] h = absurd (false≢true h)
ends-cons c (d ∷ s) h = h

ends-append : (l : Str) (k : ℕ) → ends_in_star (l ++ replicate (suc k) star) ≡ true
ends-append [] k = ends-replicate k
ends-append (c ∷ l) k = ends-cons c (l ++ replicate (suc k) star) (ends-append l k)

ends_in_star-append :
    (s : Str) → ends_in_star s ≡ true → (l : Str) × (k : ℕ) × (s ≡ l ++ replicate (suc k) star)
unfolding ends_in_star
ends_in_star-append [] h = absurd (false≢true h)
ends_in_star-append (c ∷ []) h = ([], 0, λ i. (byte_eq_iff c star).0 h i ∷ [])
ends_in_star-append (c ∷ d ∷ s) h =
    let (l, k, e) = ends_in_star-append (d ∷ s) h in (c ∷ l, k, λ i. c ∷ e i)

add-suc : (j k : ℕ) → suc (j + k) ≡ suc j + k
add-suc j k = omega arith

add-zero : (k : ℕ) → k ≡ 0 + k
add-zero k = omega arith

replicate-append :
    (j k : ℕ) → replicate j star ++ replicate (suc k) star ≡ replicate (suc (j + k)) star
replicate-append zero k = ap (λ n. replicate (suc n) star) (add-zero k)
replicate-append (suc j) k =
    (λ i. star ∷ replicate-append j k i) ∙ ap (λ n. replicate (suc n) star) (add-suc j k)

-- A text that ends in a star is what is left of it without its stars, and one star at least.
trim_stars-ends :
    (s : Str) → ends_in_star s ≡ true → (k : ℕ) × (s ≡ trim_stars s ++ replicate (suc k) star)
trim_stars-ends s h =
    let (l, k, e) = ends_in_star-append s h in
    let (j, f) = trim_stars_rest l in
    let same = ap trim_stars e ∙ trim_stars_append l (suc k) in
    (
      j + k,
      e
          ∙ ap (λ (t : Str). t ++ replicate (suc k) star) f
          ∙ append_assoc (trim_stars l) (replicate j star) (replicate (suc k) star)
          ∙ ap (λ (t : Str). trim_stars l ++ t) (replicate-append j k)
          ∙ ap (λ (t : Str). t ++ replicate (suc (j + k)) star) (sym same),
    )

trim_stars-prefix : (l rest : Str) → has_prefix (l ++ rest) (trim_stars l) ≡ true
trim_stars-prefix l rest =
    let (j, f) = trim_stars_rest l in
    (has_prefix_iff (l ++ rest) (trim_stars l)).1 (
      replicate j star ++ rest,
      ap (λ (t : Str). t ++ rest) f ∙ append_assoc (trim_stars l) (replicate j star) rest,
    )

-- The pattern is a text and one star at least, and the value starts with the text.
abbrev pub Globs : Str → Str → Type 0
Globs pattern value =
    (l : Str) × (k : ℕ) × (rest : Str) × (pattern ≡ l ++ replicate (suc k) star)
    × (value ≡ l ++ rest)

glob_iff :
    (pattern value : Str)
    → ((ends_in_star pattern ≡ true) × (has_prefix value (trim_stars pattern) ≡ true))
      ↔ Globs pattern value
glob_iff pattern value = (
  λ w.
      let (k, e) = trim_stars-ends pattern w.0 in
      let (rest, f) = (has_prefix_iff value (trim_stars pattern)).0 w.1 in
      (trim_stars pattern, k, rest, e, f),
  λ w.
      let (l, k, rest, e, f) = w in
      (
        ap ends_in_star e ∙ ends-append l k,
        ap (has_prefix value) (ap trim_stars e ∙ trim_stars_append l (suc k))
            ∙ ap (λ (t : Str). has_prefix t (trim_stars l)) f
            ∙ trim_stars-prefix l rest,
      ),
)

star-Globs : (value : Str) → Globs (star ∷ []) value
star-Globs value = ([], 0, value, refl, refl)

match_pattern-split :
    (pattern value : Str)
    → (match_pattern pattern value ≡ true) ↔ (
        (is_empty pattern ≡ true)
        ⊎ ((pattern == (star ∷ [])) ≡ true)
        ⊎ (((pattern == bytes "-") ≡ true) × (is_empty value ≡ true))
        ⊎ ((ends_in_star pattern ≡ true) × (has_prefix value (trim_stars pattern) ≡ true))
        ⊎ ((ends_in_star pattern ≡ false) × ((pattern == value) ≡ true)))
unfolding match_pattern
match_pattern-split pattern value = ground arith

is_empty-nil : (s : Str) → is_empty s ≡ true → s ≡ []
is_empty-nil [] h = refl
is_empty-nil (c ∷ s) h = absurd (false≢true h)

self-Globs : (s : Str) → ends_in_star s ≡ true → Globs s s
self-Globs s h = let (k, e) = trim_stars-ends s h in (trim_stars s, k, replicate (suc k) star, e, e)

-- A pattern of the observer matches a value exactly when it is empty, or `-` and the value empty,
-- or the value itself, or a text with stars behind it where the value starts with the text.
pub match_pattern_iff :
    (pattern value : Str)
    → (match_pattern pattern value ≡ true) ↔ (
        (pattern ≡ [])
        ⊎ ((pattern ≡ bytes "-") × (value ≡ []))
        ⊎ (pattern ≡ value)
        ⊎ Globs pattern value)
match_pattern_iff pattern value = (
  λ h. elim ((match_pattern-split pattern value).0 h) [
    | inl e ↦ inl (is_empty-nil pattern e)
    | inr (inl e) ↦ inr (inr (inr (rw ((==_iff pattern (star ∷ [])).0 e) (star-Globs value))))
    | inr (inr (inl (e, v))) ↦ inr (inl ((==_iff pattern (bytes "-")).0 e, is_empty-nil value v))
    | inr (inr (inr (inl w))) ↦ inr (inr (inr ((glob_iff pattern value).0 w)))
    | inr (inr (inr (inr w))) ↦ inr (inr (inl ((==_iff pattern value).0 w.1)))
  ],
  λ m. (match_pattern-split pattern value).1 (elim m [
    | inl e ↦ inl (ap is_empty e)
    | inr (inl (e, v)) ↦ inr (inr (inl ((==_iff pattern (bytes "-")).1 e, ap is_empty v)))
    | inr (inr (inl e)) ↦ elim (Bool-cases (ends_in_star pattern)) [
      | inl h ↦ inr (
          inr (
            inr (
              inl (
                (glob_iff pattern value).1
                  (subst (λ v. Globs pattern v) e (self-Globs pattern h))))))
      | inr h ↦ inr (inr (inr (inr (h, (==_iff pattern value).1 e))))
    ]
    | inr (inr (inr w)) ↦ inr (inr (inr (inl ((glob_iff pattern value).1 w))))
  ]),
)

module _ (name : Str) (rule : Rule) where
  abbrev matches : Str → Bool
  matches p = match_pattern p name

  inscope_split : (check_if_inscope_constraint name rule ≡ true) ↔ (
      ((is_empty rule.match ≡ false) × (flag_loop matches false rule.match ≡ false))
      ⊎ ((is_empty rule.exclude ≡ false) × (flag_loop matches false rule.exclude ≡ true)))
  unfolding check_if_inscope_constraint
  inscope_split = ground arith

  flag-Passes : (xs : List Str) → (flag_loop matches false xs ≡ true) ↔ Passes matches xs
  flag-Passes xs = rw (flag_loop-any matches false xs) (any_iff matches xs)

  flag-none : (xs : List Str) → (flag_loop matches false xs ≡ false) ↔ (¬ Passes matches xs)
  flag-none xs = rw (flag_loop-any matches false xs) (any-false_iff matches xs)

  Passes-nonempty : (xs : List Str) → Passes matches xs → is_empty xs ≡ false
  Passes-nonempty [] w = elim (w.1) [ ]
  Passes-nonempty (x ∷ xs) w = refl

  nonempty_iff : (xs : List Str) → (is_empty xs ≡ false) ↔ (xs ≢ [])
  nonempty_iff [] = (λ e. absurd (false≢true (sym e)), λ n. absurd (n refl))
  nonempty_iff (x ∷ xs) = (λ _ e. nil-ne-cons-of e, λ _. refl)
    where
      nil-ne-cons-of : x ∷ xs ≡ [] → ⊥
      nil-ne-cons-of e = cc

  -- A constraint is ignored exactly when there are patterns to match and it matches none, or when
  -- it matches a pattern to exclude.
  pub check_if_inscope_constraint_iff : (check_if_inscope_constraint name rule ≡ true) ↔ (
      ((rule.match ≢ []) × (¬ Passes (λ p. match_pattern p name) rule.match))
      ⊎ Passes (λ p. match_pattern p name) rule.exclude)
  check_if_inscope_constraint_iff = (
    λ h. elim (inscope_split.0 h) [
      | inl w ↦ inl ((nonempty_iff rule.match).0 w.0, (flag-none rule.match).0 w.1)
      | inr w ↦ inr ((flag-Passes rule.exclude).0 w.1)
    ],
    λ h. inscope_split.1 (elim h [
      | inl w ↦ inl ((nonempty_iff rule.match).1 w.0, (flag-none rule.match).1 w.1)
      | inr w ↦ inr (Passes-nonempty rule.exclude w, (flag-Passes rule.exclude).1 w)
    ]),
  )
