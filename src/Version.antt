-- ===== src/Version.antt =====
-- pkg/apk/version.go: the type `Version`, `CompareVersions`, `includesVersion` and `satisfies`.
-- The constants 1, 0 and -1 are the constructors `greater`, `equal` and `less`.
pub mod Parse
pub mod Order
pub mod Includes
pub mod Tests
use Prim.Native.Nat.{zero, suc}
use go_apk.Base.{ℕ, Bool, true, false, List, [], ◌∷◌, ◌==◌, ltb, if◌then◌else◌, length}
use mathlib.Core.Bool.{◌&&◌, ◌||◌, not}

-- `packageVersionPreModifier` and its values, the order of which matters.
pub data PreModifier : Type 0 where
  pre_none alpha beta pre rc : PreModifier

-- `packageVersionPostModifier`.
pub data PostModifier : Type 0 where
  post_none cvs svn git hg post_p : PostModifier

unfoldable pub pre_value : PreModifier → ℕ
pre_value pre_none = 0
pre_value alpha = 1
pre_value beta = 2
pre_value pre = 3
pre_value rc = 4

abbrev pub pre_max : ℕ
pre_max = 1000

unfoldable pub post_value : PostModifier → ℕ
post_value post_none = 0
post_value cvs = 1
post_value svn = 2
post_value git = 3
post_value hg = 4
post_value post_p = 5

-- A letter of 0 means that there is none.
pub record Version : Type 0 where
  pub numbers : List ℕ
  pub letter : ℕ
  pub pre_suffix : PreModifier
  pub pre_suffix_number : ℕ
  pub post_suffix : PostModifier
  pub post_suffix_number : ℕ
  pub revision : ℕ

pub data Comparison : Type 0 where
  greater equal less : Comparison

-- `if a > b { return greater }; if a < b { return less }`, and then the code that follows.
unfoldable pub compare_field : ℕ → ℕ → Comparison → Comparison
compare_field a b rest = if ltb b a then greater else if ltb a b then less else rest

-- The loop over the positions that both number lists have.
unfoldable pub compare_common : List ℕ → List ℕ → Comparison → Comparison
compare_common [] bs rest = rest
compare_common (a ∷ as') [] rest = rest
compare_common (a ∷ as') (b ∷ bs) rest = compare_field a b (compare_common as' bs rest)

-- The value that a pre-suffix is compared by: none sorts above all others.
unfoldable pub pre_rank : PreModifier → ℕ
pre_rank pre_none = pre_max
pre_rank m = pre_value m

unfoldable pub compare_suffixes : Version → Version → Comparison
compare_suffixes actual required = compare_field actual.letter required.letter (
    compare_field (pre_rank actual.pre_suffix) (pre_rank required.pre_suffix) (
      compare_field actual.pre_suffix_number required.pre_suffix_number (
        compare_field (post_value actual.post_suffix) (post_value required.post_suffix) (
          compare_field actual.post_suffix_number required.post_suffix_number
            (compare_field actual.revision required.revision equal)))))

unfoldable pub compare_versions : Version → Version → Comparison
compare_versions actual required = compare_common actual.numbers required.numbers (
    compare_field (length actual.numbers) (length required.numbers)
      (compare_suffixes actual required))

-- The loop over the required numbers, which the actual numbers are at least as many as.
unfoldable pub starts_with : List ℕ → List ℕ → Bool
starts_with actual [] = true
starts_with [] (r ∷ required) = false
starts_with (a ∷ actual) (r ∷ required) = a == r && starts_with actual required

-- A required number of 0 means that none was required.
abbrev pub meets : ℕ → ℕ → Bool
meets actual required = required == 0 || actual == required

unfoldable pub includes_version : Version → Version → Bool
includes_version actual required =
    if ltb (length actual.numbers) (length required.numbers)
    then false
    else if not (starts_with actual.numbers required.numbers)
    then false
    else if ltb (length required.numbers) (length actual.numbers)
    then true
    else meets actual.letter required.letter
      && meets (pre_value actual.pre_suffix) (pre_value required.pre_suffix)
      && meets actual.pre_suffix_number required.pre_suffix_number
      && meets (post_value actual.post_suffix) (post_value required.post_suffix)
      && meets actual.post_suffix_number required.post_suffix_number
      && meets actual.revision required.revision

-- `versionDependency`.
pub data Dependency : Type 0 where
  version_any version_equal version_greater version_less : Dependency
  version_greater_equal version_less_equal version_tilde : Dependency

abbrev pub is_greater : Comparison → Bool
is_greater greater = true
is_greater c = false

abbrev pub is_equal : Comparison → Bool
is_equal equal = true
is_equal c = false

abbrev pub is_less : Comparison → Bool
is_less less = true
is_less c = false

unfoldable pub satisfies : Dependency → Version → Version → Bool
satisfies version_tilde actual required = includes_version actual required
satisfies version_any actual required = true
satisfies version_equal actual required = is_equal (compare_versions actual required)
satisfies version_greater actual required = is_greater (compare_versions actual required)
satisfies version_less actual required = is_less (compare_versions actual required)
satisfies version_greater_equal actual required =
    let c = compare_versions actual required in is_greater c || is_equal c
satisfies version_less_equal actual required =
    let c = compare_versions actual required in is_less c || is_equal c
