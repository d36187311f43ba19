-- ===== src/Resolver/Solve/Dependencies.antt =====
-- pkg/apk/repo.go: `getPackageDependencies`.
-- The maps `existing`, `existingOrigins` and `dq` are shared by all calls: they are the state.
pub mod Gather
pub mod Unvisited
pub mod Termination
use Prim.Native.Nat.{zero, suc}
use mathlib.Core.Bool.{◌&&◌, ◌||◌}
use go_apk.Base.{
  ℕ, Bool, true, false, List, [], ◌∷◌, ◌++◌, Option, none, some, ◌==◌, ltb, if◌then◌else◌, is_nil,
  length,
}
use go_apk.Base.Bytes.{Bytes, str_eq, str_ltb}
use go_apk.Base.Maps.{Map, lookup, insert, or_nil}
use go_apk.Version.{satisfies}
use go_apk.Version.Parse.{ok, err, parse_version}
use go_apk.Constraint.{Constraint, parse_constraint}
use go_apk.Resolver.Package.{Package, Candidate, Disqualified}
use go_apk.Resolver.Index.{Resolver}
use go_apk.Resolver.Filter.{no_options, filter_packages, is_any}
use go_apk.Resolver.Compare.{Slices, best_package, str_mem}
use go_apk.Resolver.Disqualify.{disqualify_conflicts, constrain, is_exclusion, behind_first}
use go_apk.Resolver.Solve.{
  not_found, dep_error, bad_constraint, Outcome, done, fail, out_of_fuel, ◌>>=◌, wrapped, or_panic,
  maybe_dq_error,
}

pub record State : Type 0 where
  pub existing : Map Package
  pub existing_origins : List Bytes
  pub dq : Disqualified

abbrev pub Options : Type 0
Options = Map (List Candidate)

-- `myProvides`: what the package provides, as written and by name.
unfoldable pub my_provides : List Bytes → List Bytes
my_provides [] = []
my_provides (p ∷ ps) = p ∷ (parse_constraint p).name ∷ my_provides ps

-- The package fulfils the constraint itself; versions that are not valid do not.
unfoldable pub self_fulfils : Package → Constraint → Bool
self_fulfils pkg c = str_eq pkg.name c.name && elim (parse_version pkg.version) [
  | err e ↦ false
  | ok actual ↦ if is_any c.dep then true else elim (parse_version c.version) [
    | err e ↦ false
    | ok required ↦ satisfies c.dep actual required
  ]
]

-- The candidates for one dependency: none if it needs no other package.
module _ (r : Resolver) (pkg : Package) (allow_pin : Bytes) (allow_self : Bool) (st : State) where
  unfoldable pub candidates_for : Bytes → Outcome (Option (List Candidate))
  candidates_for dep =
      let c = parse_constraint dep in
      let mine = my_provides pkg.provides in
      if str_mem c.name mine || str_mem dep mine
      then done none
      else if allow_self && self_fulfils pkg c
      then done none
      else elim (lookup c.name r.name_map) [
        | none ↦ fail (not_found dep)
        | some all ↦
            elim (filter_packages
              (record no_options {
                version = c.version;
                compare = c.dep;
                allow_pin = allow_pin;
                installed = lookup c.name st.existing;
              })
              st.dq all) [
                | [] ↦ fail (dep_error pkg (maybe_dq_error dep all st.dq))
                | p ∷ ps ↦ done (some (p ∷ ps))
              ]
      ]

  -- The loop over the constraints that fills `options` and `conflicts`.
  unfoldable pub gather : List Bytes → Options → List Bytes → Outcome (Options × List Bytes)
  gather [] options conflicts = done (options, conflicts)
  gather (dep ∷ deps) options conflicts =
      if is_exclusion dep
      then gather deps options (conflicts ++ behind_first dep ∷ [])
      else elim (candidates_for dep) [
        | fail e ↦ fail e
        | out_of_fuel ↦ out_of_fuel
        | done none ↦ gather deps options conflicts
        | done (some pkgs) ↦ gather deps (insert dep pkgs options) conflicts
      ]

-- The loop that finds the option with the fewest candidates, ties broken by name.
unfoldable pub lowest_loop : Options → Options → Bytes → Bytes
lowest_loop options [] lowest = lowest
lowest_loop options ((k, v) ∷ rest) lowest =
    let least = length (or_nil (lookup lowest options)) in
    lowest_loop options rest (
      if is_nil lowest || ltb (length v) least
      then k
      else if length v == least && str_ltb k lowest
      then k
      else lowest)

abbrev pub keys : Options → List Bytes
keys [] = []
keys ((k, v) ∷ m) = k ∷ keys m

-- The loop that records the packages that a dependency brought in.
unfoldable pub record_existing : List Package → State → State
record_existing [] st = st
record_existing (p ∷ ps) st = record_existing ps (record st {
  existing = insert p.name p st.existing;
  existing_origins = p.origin ∷ st.existing_origins;
})

-- The dependencies, the conflicts and the state that a call leaves.
abbrev pub Found : Type 0
Found = List Package × List Bytes × State

-- `order` is the order in which Go iterates over `options`.
module _ (lib : Slices) (order : Options → Options) (r : Resolver) where
  -- The option with the fewest candidates: its best candidate, and the constraints that are left.
  -- Without options there is nothing left to solve.
  unfoldable pub pick : State → Options → Outcome (Option (Candidate × List Bytes))
  pick st options = elim (order options) [
    | [] ↦ done none
    | o ∷ os ↦
        let lowest = lowest_loop options (o ∷ os) [] in
        elim (best_package lib
          (record {
            compare = none;
            name = (parse_constraint lowest).name;
            existing = st.existing;
            existing_origins = st.existing_origins;
            pin = [];
          })
          (or_nil (lookup lowest options))) [
            | none ↦ fail (not_found lowest)
            | some best ↦ done (some (best, lib.delete_func (λ s. str_eq s lowest) (keys (o ∷ os))))
          ]
  ]

  -- The loop over the constraints. `visit` is the recursive call, for a package and a state.
  unfoldable pub solve_loop :
      (Package → State → Outcome Found)
      → Package
      → Bytes
      → Bool
      → ℕ
      → List Bytes
      → State
      → List Package
      → List Bytes
      → Outcome Found
  solve_loop visit pkg allow_pin allow_self fuel [] st deps confs = done (deps, confs, st)
  solve_loop visit pkg allow_pin allow_self zero (c ∷ cs) st deps confs = out_of_fuel
  solve_loop visit pkg allow_pin allow_self (suc fuel) (c ∷ cs) st deps confs = do
    (options, confs') ← gather r pkg allow_pin allow_self st (c ∷ cs) [] confs
    picked ← pick st options
    elim picked [
      | none ↦ done (deps, confs', st)
      | some (best, rest) ↦ do
        dq ← or_panic (disqualify_conflicts r best.pkg st.dq)
        (sub, subconfs, st') ← wrapped (dep_error pkg) (visit best.pkg (record st { dq = dq }))
        solve_loop visit pkg allow_pin allow_self fuel rest (record_existing sub st')
            (deps ++ (sub ++ best.pkg ∷ [])) (confs' ++ subconfs)
    ]

  -- `getPackageDependencies`: the fuel bounds the depth of the recursion, `parents` are the names of
  -- the packages above.
  unfoldable pub package_dependencies :
      ℕ → Package → Bytes → Bool → List Bytes → State → Outcome Found
  package_dependencies zero pkg allow_pin allow_self parents st = out_of_fuel
  package_dependencies (suc fuel) pkg allow_pin allow_self parents st =
      if str_mem pkg.name parents
      then done ([], [], st)
      else elim (constrain r pkg.dependencies st.dq) [
        | none ↦ fail bad_constraint
        | some dq ↦
            solve_loop (λ p s. package_dependencies fuel p allow_pin true (pkg.name ∷ parents) s)
              pkg allow_pin allow_self (length pkg.dependencies) pkg.dependencies
              (record st { dq = dq }) [] []
      ]
