-- ===== src/Observer/Pattern.antt =====
-- `MatchPattern`, `Contains` and `checkIfInscopeConstraint` of observer/pkg/observer/observer.go.
pub mod Globs
use integrity_shield.Base.{
  ℕ, Str, bytes, ◌==◌, byte_eq, has_prefix, Bool, true, false, List, [], ◌∷◌, is_empty,
  if◌then◌else◌, ◌&&◌, not, any, flag_loop,
}

-- `*`
abbrev pub star : ℕ
star = 42

-- `strings.HasSuffix(s, "*")`
unfoldable pub ends_in_star : Str → Bool
ends_in_star [] = false
ends_in_star (c ∷ []) = byte_eq c star
ends_in_star (c ∷ d ∷ s) = ends_in_star (d ∷ s)

-- `strings.TrimRight(s, "*")`
unfoldable pub trim_stars : Str → Str
trim_stars [] = []
trim_stars (c ∷ s) =
    let rest = trim_stars s in if is_empty rest && byte_eq c star then [] else c ∷ rest

unfoldable pub match_pattern : Str → Str → Bool
unfolding ends_in_star trim_stars
match_pattern pattern value =
    if is_empty pattern
    then true
    else if pattern == (star ∷ [])
    then true
    else if (pattern == bytes "-") && is_empty value
    then true
    else if ends_in_star pattern
    then has_prefix value (trim_stars pattern)
    else if pattern == value
    then true
    else false

unfoldable pub contains : List Str → Str → Bool
contains pattern value = any (λ p. p == value) pattern

pub record Rule : Type 0 where
  pub match : List Str
  pub exclude : List Str

-- Whether a constraint is ignored: by the first patterns, and, if it is not, by the second.
unfoldable pub check_if_inscope_constraint : Str → Rule → Bool
unfolding flag_loop
check_if_inscope_constraint constraint_name tcconfig =
    let ignored =
      if is_empty tcconfig.match
      then false
      else if flag_loop (λ p. match_pattern p constraint_name) false tcconfig.match
      then false
      else true in
    if not ignored && not (is_empty tcconfig.exclude)
    then (if flag_loop (λ p. match_pattern p constraint_name) false tcconfig.exclude
        then true
        else false)
    else ignored
