-- ===== src/Resolver/Tests.antt =====
-- Runs of the resolver on a small index.
pub mod Library
use Prim.Native.Nat.{◌<◌}
use go_apk.Base.{
  ℕ, length, true, ◌≡◌, ◌≢◌, ◌↔◌, List, [], ◌∷◌, Option, none, some, refl, inl, inr, All, In, arith,
}
use go_apk.Base.Bytes.{Bytes, codes, str_eq, has_prefix}
use go_apk.Base.Decimal.{parse_int, numeral}
use go_apk.Base.Maps.{lookup, insert}
use go_apk.Version.{
  Version, less, pre_none, post_none, version_greater, pre_value, post_value, compare_field,
  compare_common, pre_rank, compare_suffixes, compare_versions, starts_with, includes_version,
  satisfies,
}
use go_apk.Version.Order.{AtMost}
use go_apk.Version.Parse.{ok, parse_version}
use go_apk.Constraint.{parse_constraint, match_pin, match_operator, match_name, dependency}
use go_apk.Resolver.Package.{Package, Candidate, reason_for, dqed, filename, url}
use go_apk.Resolver.Index.{
  NamedIndex, Resolver, candidates_in, candidates, add_names, add_install_ifs, add_all_install_ifs,
  add_provides, add_all_provides, new_resolver,
}
use go_apk.Resolver.Index.Laws.{IsSound, new_resolver-IsSound}
use go_apk.Resolver.Filter.{
  FilterOptions, no_options, filter_loop, filter_packages, pin_rejects, provides_satisfying,
  version_admits,
}
use go_apk.Resolver.Filter.Matches.{Matches, filter_packages-Matches}
use go_apk.Resolver.Compare.{
  provided_version, dep_version_for_name, Preferences, str_mem, prefer, prefer_like, is_existing,
  compare_newest, compare_names, compare_own, compare_priority, compare_packages, best_package,
}
use go_apk.Resolver.Compare.Laws.{IsComparable}
use go_apk.Resolver.Compare.Preorder.{IsPreorder, compare_packages-IsPreorder}
use go_apk.Resolver.Compare.Newest.{best_package-newest}
use go_apk.Resolver.Disqualify.{
  conflicting_provides, conflicting_version, conflict_all, conflict_provides, disqualify_conflicts,
  constrain,
}
use go_apk.Resolver.Disqualify.Laws.{disqualify_conflicts-ne-none}
use go_apk.Resolver.Solve.{Outcome, done, out_of_fuel, resolve_package}
use go_apk.Resolver.Solve.Laws.{IsCandidateFor, resolve_package-IsCandidateFor}
use go_apk.Resolver.Solve.Dependencies.{State, package_dependencies}
use go_apk.Resolver.Solve.Dependencies.Unvisited.{names, unvisited}
use go_apk.Resolver.Solve.Dependencies.Termination.{package_dependencies_ends}
use go_apk.Resolver.Tests.Library.{slices, slices-MinLaws, slices-LoopLaws}

-- What the runs compute with.
program : Unit {0}
unfolding parse_version parse_int numeral pre_value post_value compare_field compare_common pre_rank
    compare_suffixes compare_versions starts_with includes_version satisfies parse_constraint
    match_pin match_operator match_name dependency lookup insert candidates_in candidates add_names
    add_install_ifs add_all_install_ifs add_provides add_all_provides new_resolver reason_for dqed
    filename url filter_loop filter_packages pin_rejects provides_satisfying version_admits
    provided_version dep_version_for_name str_mem prefer prefer_like is_existing compare_newest
    compare_names compare_own compare_priority compare_packages best_package
program = tt

abbrev package_of : ℕ → Bytes → Bytes → List Bytes → List Bytes → Package
package_of id name version dependencies provides = record {
  id = id;
  name = name;
  version = version;
  origin = name;
  dependencies = dependencies;
  provides = provides;
  install_if = [];
  provider_priority = 0;
  repository = codes "https://apk.example";
}

-- A shell and a C library, whose dependencies are a cycle.
abbrev shell : Package
shell =
    package_of 0 (codes "shell") (codes "1.2-r0") (codes "libc>1.0" ∷ []) (codes "sh=1.2-r0" ∷ [])

abbrev libc_old : Package
libc_old = package_of 1 (codes "libc") (codes "1.0") (codes "sh" ∷ []) []

abbrev libc_new : Package
libc_new = package_of 2 (codes "libc") (codes "1.1") (codes "sh" ∷ []) []

abbrev main_index : NamedIndex
main_index = record { name = []; packages = shell ∷ libc_old ∷ libc_new ∷ [] }

abbrev resolver : Resolver
resolver = new_resolver (λ m. m) (main_index ∷ [])

abbrev unpinned : Package → Candidate
unpinned p = record { pkg = p; pinned_name = [] }

abbrev libcs : List Candidate
libcs = unpinned libc_old ∷ unpinned libc_new ∷ []

abbrev above_1_0 : FilterOptions
above_1_0 = record no_options { version = codes "1.0"; compare = version_greater }

filter_tests : filter_packages above_1_0 [] libcs ≡ unpinned libc_new ∷ []
unfolding program
filter_tests = refl

filter_packages-Matches_example :
    In (unpinned libc_new) (filter_packages above_1_0 [] libcs)
    ↔ (In (unpinned libc_new) libcs × Matches above_1_0 [] (unpinned libc_new))
filter_packages-Matches_example = filter_packages-Matches above_1_0 [] libcs (unpinned libc_new)

abbrev for_libc : Preferences
for_libc = record {
  compare = none;
  name = codes "libc";
  existing = [];
  existing_origins = [];
  pin = [];
}

libcs-IsComparable : All (IsComparable for_libc.name) libcs
unfolding program
libcs-IsComparable = (
  record { counted = (_, refl); own = (_, refl) },
  (record { counted = (_, refl); own = (_, refl) }, tt),
)

compare_packages-IsPreorder_example : IsPreorder (compare_packages for_libc) libcs
compare_packages-IsPreorder_example = compare_packages-IsPreorder for_libc libcs libcs-IsComparable

best_package_tests : best_package slices for_libc libcs ≡ some (unpinned libc_new)
unfolding program
best_package_tests = refl

-- Version 1 with a second number.
abbrev one_dot : ℕ → Version
one_dot n = record {
  numbers = 1 ∷ n ∷ [];
  letter = 0;
  pre_suffix = pre_none;
  pre_suffix_number = 0;
  post_suffix = post_none;
  post_suffix_number = 0;
  revision = 0;
}

versions_lem :
    (parse_version (dep_version_for_name libc_new (codes "libc")) ≡ ok (one_dot 1))
    × (parse_version (dep_version_for_name libc_old (codes "libc")) ≡ ok (one_dot 0))
unfolding program
versions_lem = (refl, refl)

best_package-newest_example :
    In (unpinned libc_new) libcs × (compare_versions (one_dot 1) (one_dot 0) ≢ less)
best_package-newest_example =
    best_package-newest slices for_libc (unpinned libc_old) (unpinned libc_new) (unpinned libc_old)
      (unpinned libc_new ∷ []) (one_dot 1) (one_dot 0) slices-MinLaws libcs-IsComparable refl refl
      refl best_package_tests (inl refl) refl refl versions_lem.0 versions_lem.1

new_resolver-IsSound_example : IsSound resolver.name_map
new_resolver-IsSound_example = new_resolver-IsSound (λ m. m) (main_index ∷ [])

disqualify_conflicts-ne-none_example : disqualify_conflicts resolver shell [] ≢ none
disqualify_conflicts-ne-none_example =
    disqualify_conflicts-ne-none (λ m. m) (main_index ∷ []) shell []

abbrev start : State
start = record { existing = []; existing_origins = []; dq = [] }

fewer_than_5 : length (unvisited [] (names resolver)) < 5
unfolding program unvisited
fewer_than_5 = omega arith

listed : In (codes "shell") (names resolver)
unfolding program
listed = inl refl

package_dependencies_ends_example :
    package_dependencies slices (λ m. m) resolver 5 shell [] true [] start ≢ out_of_fuel
package_dependencies_ends_example =
    package_dependencies_ends slices (λ m. m) resolver slices-MinLaws slices-LoopLaws 5 shell []
      true [] start listed fewer_than_5

resolve_package-IsCandidateFor_example :
    ((p : Package)
      → resolve_package slices resolver (codes "libc>1.0") [] ≡ done p
      → IsCandidateFor resolver (codes "libc>1.0") [] p)
    × ((p : Package)
        → IsCandidateFor resolver (codes "libc>1.0") [] p
        → (q : Package) × (resolve_package slices resolver (codes "libc>1.0") [] ≡ done q))
resolve_package-IsCandidateFor_example =
    resolve_package-IsCandidateFor slices resolver (codes "libc>1.0") [] slices-MinLaws
