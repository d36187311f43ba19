-- ===== src/Constraint.antt =====
-- pkg/apk/version.go: `packageNameRegex`, `parsedConstraint` and `resolvePackageNameVersionPin`.
pub mod Laws
pub mod Tests
use mathlib.Core.Bool.{◌&&◌, ◌||◌, not}
use go_apk.Base.{
  ℕ, Bool, true, false, List, [], ◌∷◌, ◌++◌, Option, none, some, ◌==◌, if◌then◌else◌, is_nil, leb,
}
use go_apk.Base.Bytes.{Bytes, codes, str_eq, span, is_digit, is_lower, is_upper}
use go_apk.Version.{
  Dependency, version_any, version_equal, version_greater, version_less, version_greater_equal,
  version_less_equal, version_tilde,
}

-- `parsedConstraint`.
pub record Constraint : Type 0 where
  pub name : Bytes
  pub version : Bytes
  pub dep : Dependency
  pub pin : Bytes

-- `[=><~]`, `[^@]`, `[^@=><~]` and `[a-zA-Z0-9]`.
abbrev pub is_operator : ℕ → Bool
is_operator c = c == b'=' || c == b'>' || c == b'<' || c == b'~'

abbrev pub is_not_at : ℕ → Bool
is_not_at c = not (c == b'@')

abbrev pub is_name : ℕ → Bool
is_name c = not (c == b'@' || is_operator c)

abbrev pub is_alnum : ℕ → Bool
is_alnum c = is_lower c || is_upper c || is_digit c

-- The groups 1, 3, 4 and 6 of a match.
pub record Groups : Type 0 where
  pub name : Bytes
  pub matcher : Bytes
  pub version : Bytes
  pub pin : Bytes

-- `(@([a-zA-Z0-9]+))?$`.
unfoldable pub match_pin : Bytes → Option Bytes
match_pin [] = some []
match_pin (c ∷ s) =
    let (a, r) = span is_alnum s in if c == b'@' && not (is_nil a) && is_nil r then some a else none

-- The last byte of a text of two or more, and what stands before it.
abbrev pub split_off : Bytes → Option (Bytes × ℕ)
split_off [] = none
split_off (c ∷ []) = none
split_off (c ∷ d ∷ []) = some (c ∷ [], d)
split_off (c ∷ d ∷ e ∷ s) = elim (split_off (d ∷ e ∷ s)) [
  | none ↦ none
  | some (a, x) ↦ some (c ∷ a, x)
]

-- `([=><~]+)([^@]+)`: the operators take all that they can, and give one byte back if the version
-- would else be empty.
unfoldable pub match_operator : Bytes → Bytes → Option (Bytes × Bytes)
match_operator matcher [] = elim (split_off matcher) [
  | none ↦ none
  | some (a, x) ↦ some (a, x ∷ [])
]
match_operator matcher (c ∷ s) = some (matcher, c ∷ s)

-- `packageNameRegex.FindAllStringSubmatch`.
unfoldable pub match_name : Bytes → Option Groups
match_name s =
    let (name, s1) = span is_name s in
    let (matcher, s2) = span is_operator s1 in
    let (version, s3) = span is_not_at s2 in
    if is_nil name then none else elim (match_pin (if is_nil matcher then s1 else s3)) [
      | none ↦ none
      | some pin ↦
          if is_nil matcher
          then some (record { name = name; matcher = []; version = []; pin = pin })
          else elim (match_operator matcher version) [
            | none ↦ none
            | some (m, v) ↦ some (record { name = name; matcher = m; version = v; pin = pin })
          ]
    ]

unfoldable pub dependency : Bytes → Dependency
dependency matcher =
    if str_eq matcher (codes "=")
    then version_equal
    else if str_eq matcher (codes ">")
    then version_greater
    else if str_eq matcher (codes "<")
    then version_less
    else if str_eq matcher (codes ">=")
    then version_greater_equal
    else if str_eq matcher (codes "<=")
    then version_less_equal
    else if str_eq matcher (codes "~")
    then version_tilde
    else version_any

-- `resolvePackageNameVersionPin`.
unfoldable pub parse_constraint : Bytes → Constraint
parse_constraint s = elim (match_name s) [
  | none ↦ record { name = s; version = []; dep = version_any; pin = [] }
  | some g ↦ record { name = g.name; version = g.version; dep = dependency g.matcher; pin = g.pin }
]
