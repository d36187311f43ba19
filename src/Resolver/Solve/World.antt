-- ===== src/Resolver/Solve/World.antt =====
-- pkg/apk/repo.go: `GetPackageWithDependencies` and `GetPackagesWithDependencies`; pkg/apk/util.go:
-- `uniqify`.
use Prim.Native.Nat.{zero, suc}
use go_apk.Base.{ℕ, true, List, [], ◌∷◌, ◌++◌, none, some, ◌==◌, if◌then◌else◌, is_nil, length}
use go_apk.Base.Bytes.{Bytes, str_eq}
use go_apk.Base.Maps.{Map, lookup, insert, is_some}
use go_apk.Constraint.{parse_constraint}
use go_apk.Resolver.Package.{Package, Candidate, Disqualified}
use go_apk.Resolver.Index.{Resolver}
use go_apk.Resolver.Compare.{Slices, str_mem}
use go_apk.Resolver.Disqualify.{disqualify_conflicts, constrain}
use go_apk.Resolver.Solve.{
  constraint_error, bad_constraint, Outcome, done, fail, out_of_fuel, ◌>>=◌, wrapped, or_panic,
  resolve_package, next_package,
}
use go_apk.Resolver.Solve.Dependencies.{Options, package_dependencies}

-- `uniqify`: the map `seen` has the elements of `uniq` as its keys.
unfoldable pub uniqify_loop : List Bytes → List Bytes → List Bytes
uniqify_loop uniq [] = uniq
uniqify_loop uniq (v ∷ s) = uniqify_loop (if str_mem v uniq then uniq else uniq ++ v ∷ []) s

unfoldable pub uniqify : List Bytes → List Bytes
unfolding uniqify_loop
uniqify s = uniqify_loop [] s

-- The origins of the packages that are there already.
unfoldable pub origins_of : Map Package → List Bytes
origins_of [] = []
origins_of ((k, p) ∷ m) = if is_nil p.origin then origins_of m else p.origin ∷ origins_of m

-- `added` and `dependencies`: the map and the list of the packages that are to be installed.
pub record Added : Type 0 where
  pub added : Map Package
  pub dependencies : List Package

-- The package is added unless there is one of its name.
unfoldable pub add : Added → Package → Added
add s p =
    if is_some (lookup p.name s.added)
    then s
    else record { added = insert p.name p s.added; dependencies = s.dependencies ++ p ∷ [] }

unfoldable pub add_all : List Package → Added → Added
unfolding add
add_all [] s = s
add_all (p ∷ ps) s = add_all ps (add s p)

-- `matchCount`: how many of the install-if constraints are met.
unfoldable pub match_count : Map Package → List Bytes → ℕ
match_count added [] = 0
match_count added (sub ∷ subs) =
    let n = match_count added subs in
    let c = parse_constraint sub in
    if is_some (lookup sub added) then suc n else elim (lookup c.name added) [
      | none ↦ n
      | some p ↦ if str_eq p.version c.version then suc n else n
    ]

-- The loop over the packages that one name triggers.
unfoldable pub trigger_all : List Candidate → Added → Added
unfolding add match_count
trigger_all [] s = s
trigger_all (c ∷ cs) s =
    trigger_all cs
      (if match_count s.added c.pkg.install_if == length c.pkg.install_if then add s c.pkg else s)

-- The packages under the name, or else under the name with its version.
unfoldable pub triggered_by : Resolver → Bytes → Package → List Candidate
triggered_by r dep p = elim (lookup dep r.install_if_map) [
  | some cs ↦ cs
  | none ↦ elim (lookup (dep ++ (b'=' ∷ p.version)) r.install_if_map) [ some cs ↦ cs | none ↦ [] ]
]

-- The loop over the map `added`. Go iterates in any order, and may visit or skip a key that is added
-- on the way: `visits` are the keys that it visits.
unfoldable pub install_if_loop : Resolver → List Bytes → Added → Added
unfolding trigger_all triggered_by
install_if_loop r [] s = s
install_if_loop r (dep ∷ visits) s =
    install_if_loop r visits
      (elim (lookup dep s.added) [ none ↦ s | some p ↦ trigger_all (triggered_by r dep p) s ])

-- What a call leaves: the package, its dependencies, the conflicts and the disqualified packages.
abbrev pub Resolved : Type 0
Resolved = Package × List Package × List Bytes × Disqualified

-- The state of the second loop of `GetPackagesWithDependencies`.
pub record Progress : Type 0 where
  pub to_install : Added
  pub dependencies_map : Map Package
  pub conflicts : List Bytes
  pub dq : Disqualified

-- The package is put into the map unless there is one of its name.
unfoldable pub insert_new : Package → Map Package → Map Package
insert_new p m = if is_some (lookup p.name m) then m else insert p.name p m

unfoldable pub insert_all_new : List Package → Map Package → Map Package
unfolding insert_new
insert_all_new [] m = m
insert_all_new (p ∷ ps) m = insert_all_new ps (insert_new p m)

abbrev pub nothing_added : Added
nothing_added = record { added = []; dependencies = [] }

-- `visits` gives the keys that Go visits in the loop over `added`.
module _ (lib : Slices) (order : Options → Options) (visits : Map Package → List Bytes)
    (r : Resolver) where
  -- `GetPackageWithDependencies`.
  unfoldable pub package_with_dependencies :
      ℕ → Bytes → Map Package → Disqualified → Outcome Resolved
  unfolding add_all install_if_loop origins_of
  package_with_dependencies fuel pkg_name existing dq = resolve_package lib r pkg_name dq >>= λ pkg.
      package_dependencies lib order r fuel pkg (parse_constraint pkg_name).pin true []
        (record { existing = existing; existing_origins = origins_of existing; dq = dq })
      >>= λ (deps, conflicts, st).
          let s = add_all deps nothing_added in
          done (pkg, (install_if_loop r (visits s.added) s).dependencies, conflicts, st.dq)

  -- The first loop of `GetPackagesWithDependencies`: it decides which package each constraint means.
  unfoldable pub choose_loop :
      ℕ → List Bytes → Map Package → Disqualified → Outcome (Map Package × Disqualified)
  choose_loop fuel [] chosen dq = done (chosen, dq)
  choose_loop zero (c ∷ cs) chosen dq = out_of_fuel
  choose_loop (suc fuel) (c ∷ cs) chosen dq = next_package lib r (c ∷ cs) dq >>= λ next.
      wrapped (constraint_error next) (resolve_package lib r next dq) >>= λ pkg.
      or_panic (disqualify_conflicts r pkg dq) >>= λ dq'.
      choose_loop fuel (lib.delete_func (λ s. str_eq s next) (c ∷ cs)) (insert pkg.name pkg chosen)
        dq'

  -- The second loop: the packages with their dependencies, in the order of installation.
  unfoldable pub install_loop : ℕ → List Bytes → Progress → Outcome Progress
  unfolding add add_all insert_new insert_all_new
  install_loop fuel [] s = done s
  install_loop fuel (pkg_name ∷ names) s =
      wrapped (constraint_error pkg_name)
        (package_with_dependencies fuel pkg_name s.dependencies_map s.dq)
      >>= λ (pkg, deps, confs, dq). install_loop fuel names (record {
        to_install = add (add_all deps s.to_install) pkg;
        dependencies_map = insert_new pkg (insert_all_new deps s.dependencies_map);
        conflicts = s.conflicts ++ confs;
        dq = dq;
      })

  -- `GetPackagesWithDependencies`: the packages to install, in order, and the conflicts.
  unfoldable pub packages_with_dependencies : ℕ → List Bytes → Outcome (List Package × List Bytes)
  unfolding uniqify
  packages_with_dependencies fuel packages = elim (constrain r packages []) [
    | none ↦ fail bad_constraint
    | some dq ↦ choose_loop (length packages) packages [] dq >>= λ (chosen, dq').
        install_loop fuel packages (record {
          to_install = nothing_added;
          dependencies_map = chosen;
          conflicts = [];
          dq = dq';
        })
        >>= λ s. done (s.to_install.dependencies, uniqify s.conflicts)
  ]
