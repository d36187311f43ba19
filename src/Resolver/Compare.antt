-- ===== src/Resolver/Compare.antt =====
-- pkg/apk/repo.go: `getDepVersionForName`, `comparePackages`, and the functions of the package
-- golang.org/x/exp/slices that they are used with.
-- The results -1, 0 and 1 of a comparison are the constructors `less`, `equal` and `greater`.
pub mod Laws
pub mod Preorder
pub mod Newest
use mathlib.Core.Bool.{◌||◌, not}
use go_apk.Base.{
  ℕ, Bool, true, false, List, [], ◌∷◌, Option, none, some, ◌==◌, ltb, if◌then◌else◌, is_nil,
}
use go_apk.Base.Bytes.{Bytes, str_eq, str_ltb}
use go_apk.Base.Maps.{Map, lookup}
use go_apk.Version.{Comparison, greater, equal, less, compare_versions}
use go_apk.Version.Parse.{ok, err, parse_version}
use go_apk.Constraint.{parse_constraint}
use go_apk.Resolver.Package.{Package, Candidate}

-- The loop of `getDepVersionForName`.
unfoldable pub provided_version : Package → Bytes → List Bytes → Bytes
unfolding str_eq
provided_version p name [] = []
provided_version p name (prov ∷ provs) =
    let rest = provided_version p name provs in
    let c = parse_constraint prov in
    if str_eq c.name name then (if is_nil c.version then p.version else c.version) else rest

unfoldable pub dep_version_for_name : Package → Bytes → Bytes
dep_version_for_name p name =
    if is_nil name || str_eq name p.name then p.version else provided_version p name p.provides

-- The arguments of `comparePackages`: the origins are the keys of a map to true.
pub record Preferences : Type 0 where
  pub compare : Option Package
  pub name : Bytes
  pub existing : Map Package
  pub existing_origins : List Bytes
  pub pin : Bytes

unfoldable pub str_mem : Bytes → List Bytes → Bool
str_mem s [] = false
str_mem s (t ∷ ts) = str_eq t s || str_mem s ts

-- `if x && !y { return -1 }; if y && !x { return 1 }`, and then the code that follows.
unfoldable pub prefer : Bool → Bool → Comparison → Comparison
prefer true false rest = less
prefer false true rest = greater
prefer true true rest = rest
prefer false false rest = rest

-- The repository and the origin, against those of the package to compare with.
unfoldable pub prefer_like : Option Package → Package → Package → Comparison → Comparison
prefer_like none a b rest = rest
prefer_like (some p) a b rest =
    prefer (str_eq a.repository p.repository) (str_eq b.repository p.repository)
      (prefer (str_eq a.origin p.origin) (str_eq b.origin p.origin) rest)

-- A package of the same name and version is to be installed already.
unfoldable pub is_existing : Map Package → Package → Bool
is_existing existing p = elim (lookup p.name existing) [
  | none ↦ false
  | some q ↦ str_eq q.version p.version
]

-- `-1 * CompareVersions(i, j)` if that is not 0; a version that is not valid is never preferred.
unfoldable pub compare_newest : Bytes → Bytes → Comparison → Comparison
compare_newest i j rest = elim (parse_version i) [
  | err e ↦ greater
  | ok v ↦ elim (parse_version j) [
    | err e ↦ less
    | ok w ↦ elim (compare_versions v w) [ greater ↦ less | less ↦ greater | equal ↦ rest ]
  ]
]

-- `cmp.Compare` on strings.
unfoldable pub compare_names : Bytes → Bytes → Comparison
compare_names a b = if str_ltb a b then less else if str_ltb b a then greater else equal

-- The package's own versions, if one of those compared was another.
unfoldable pub compare_own : Bytes → Bytes → Package → Package → Comparison → Comparison
compare_own i j a b rest =
    if not (str_eq i a.version) || not (str_eq j b.version)
    then compare_newest a.version b.version rest
    else rest

unfoldable pub compare_priority : ℕ → ℕ → Comparison → Comparison
compare_priority a b rest = if a == b then rest else if ltb b a then less else greater

-- The function that `comparePackages` returns.
unfoldable pub compare_packages : Preferences → Candidate → Candidate → Comparison
compare_packages o c d =
    let a = c.pkg in
    let b = d.pkg in
    let i = dep_version_for_name a o.name in
    let j = dep_version_for_name b o.name in
    prefer_like o.compare a b (
      prefer (is_existing o.existing a) (is_existing o.existing b) (
        prefer (str_mem a.origin o.existing_origins) (str_mem b.origin o.existing_origins) (
          prefer (str_eq c.pinned_name o.pin) (str_eq d.pinned_name o.pin) (
            compare_priority a.provider_priority b.provider_priority
              (compare_newest i j (compare_own i j a b (compare_names a.name b.name)))))))

-- `slices.MinFunc` of a list that is not empty, `slices.SortFunc` and `slices.DeleteFunc` of the
-- elements that equal a string: the package is not part of the repository.
pub record Slices : Type 0 where
  pub min_func : (Candidate → Candidate → Comparison) → Candidate → List Candidate → Candidate
  pub sort_func : (Candidate → Candidate → Comparison) → List Candidate → List Candidate
  pub delete_func : (Bytes → Bool) → List Bytes → List Bytes

-- `sortPackages` and `bestPackage`.
unfoldable pub sort_packages : Slices → Preferences → List Candidate → List Candidate
sort_packages lib o pkgs = lib.sort_func (compare_packages o) pkgs

unfoldable pub best_package : Slices → Preferences → List Candidate → Option Candidate
best_package lib o [] = none
best_package lib o (c ∷ cs) = some (lib.min_func (compare_packages o) c cs)
