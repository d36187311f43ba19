-- ===== src/Resolver/Solve.antt =====
-- pkg/apk/repo.go: `ResolvePackage`, `resolvePackage`, `nextPackage` and `maybedqerror`.
pub mod Laws
pub mod Dependencies
pub mod World
use mathlib.Core.Bool.{not}
use go_apk.Base.{
  ℕ, ◌≡◌, ◌≢◌, refl, Bool, true, false, List, [], ◌∷◌, ◌++◌, Option, none, some, ltb, if◌then◌else◌,
  is_nil, length,
}
use go_apk.Base.Bytes.{Bytes}
use go_apk.Base.Maps.{lookup}
use go_apk.Constraint.{Constraint, parse_constraint}
use go_apk.Resolver.Package.{Package, Candidate, Reason, reason_for, Disqualified, dqed}
use go_apk.Resolver.Index.{Resolver}
use go_apk.Resolver.Filter.{no_options, filter_packages}
use go_apk.Resolver.Compare.{Preferences, Slices, sort_packages, best_package}

-- The errors, with what they wrap. `not_found` stands for the messages of a name that no index has,
-- `disqualified_error` for the joined errors of `maybedqerror`.
pub data Error : Type 0 where
  not_found : Bytes → Error
  disqualified_error : Bytes → List (Package × Reason) → Error
  constraint_error : Bytes → Error → Error
  dep_error : Package → Error → Error
  bad_constraint : Error
  panic : Error

-- A computation ends with a value or an error, or the fuel of the model ran out.
pub data Outcome {ℓ} (A : Type ℓ) : Type ℓ where
  done : A → Outcome A
  fail : Error → Outcome A
  out_of_fuel : Outcome A

infixl 5 ◌>>=◌
abbrev pub ◌>>=◌ {ℓ κ} : {A : Type ℓ} {B : Type κ} → Outcome A → (A → Outcome B) → Outcome B
done a >>= f = f a
fail e >>= f = fail e
out_of_fuel >>= f = out_of_fuel

-- A chain of computations that do not run out of fuel does not.
pub >>=-ne-out_of_fuel {ℓ κ} :
    {A : Type ℓ} {B : Type κ} (m : Outcome A) (f : A → Outcome B)
    → m ≢ out_of_fuel
    → ((a : A) → m ≡ done a → f a ≢ out_of_fuel)
    → (m >>= f) ≢ out_of_fuel
>>=-ne-out_of_fuel (done a) f h k = k a refl
>>=-ne-out_of_fuel (fail e) f h k = λ x. cc x
>>=-ne-out_of_fuel out_of_fuel f h k = absurd (h refl)

-- An error is wrapped by `wrap`.
abbrev pub wrapped {ℓ} : {A : Type ℓ} → (Error → Error) → Outcome A → Outcome A
wrapped wrap (done a) = done a
wrapped wrap (fail e) = fail (wrap e)
wrapped wrap out_of_fuel = out_of_fuel

abbrev pub or_panic {ℓ} : {A : Type ℓ} → Option A → Outcome A
or_panic none = fail panic
or_panic (some a) = done a

-- The candidates that are disqualified, with the reasons.
unfoldable pub reasons : List Candidate → Disqualified → List (Package × Reason)
reasons [] dq = []
reasons (c ∷ cs) dq = elim (reason_for c.pkg dq) [
  | none ↦ reasons cs dq
  | some r ↦ (c.pkg, r) ∷ reasons cs dq
]

-- `maybedqerror`.
unfoldable pub maybe_dq_error : Bytes → List Candidate → Disqualified → Error
maybe_dq_error constraint pkgs dq =
    let errs = reasons pkgs dq in
    if not (is_nil errs)
    then constraint_error constraint (disqualified_error constraint errs)
    else not_found constraint

abbrev pub preferences : Bytes → Bytes → Preferences
preferences name pin = record {
  compare = none;
  name = name;
  existing = [];
  existing_origins = [];
  pin = pin;
}

unfoldable pub not_dqed : List Candidate → Disqualified → List Package
not_dqed [] dq = []
not_dqed (c ∷ cs) dq = if dqed c.pkg dq then not_dqed cs dq else c.pkg ∷ not_dqed cs dq

-- The candidates that match a constraint, as both functions below filter them.
unfoldable pub matching : Resolver → Bytes → Disqualified → Outcome (List Candidate)
matching r pkg_name dq =
    let c = parse_constraint pkg_name in
    elim (lookup c.name r.name_map) [
      | none ↦ fail (not_found pkg_name)
      | some all ↦
          elim (filter_packages
            (record no_options { version = c.version; compare = c.dep; prefer_pin = c.pin }) dq
            all) [ [] ↦ fail (maybe_dq_error pkg_name all dq) | p ∷ ps ↦ done (p ∷ ps) ]
    ]

module _ (lib : Slices) (r : Resolver) where
  -- `ResolvePackage`.
  unfoldable pub resolve_packages : Bytes → Disqualified → Outcome (List Package)
  resolve_packages pkg_name dq = do
    packages ← matching r pkg_name dq
    let c = parse_constraint pkg_name
    done (not_dqed (sort_packages lib (preferences c.name c.pin) packages) dq)

  -- `resolvePackage`.
  unfoldable pub resolve_package : Bytes → Disqualified → Outcome Package
  resolve_package pkg_name dq = do
    packages ← matching r pkg_name dq
    let c = parse_constraint pkg_name
    best ← or_panic (best_package lib (preferences c.name c.pin) packages)
    done best.pkg

  -- The loop of `nextPackage`, with `next` and `leastDeps`.
  unfoldable pub next_loop : List Bytes → Disqualified → Bytes → ℕ → Outcome Bytes
  next_loop [] dq next least = done next
  next_loop (pkg_name ∷ names) dq next least = elim (resolve_packages pkg_name dq) [
    | fail e ↦ fail (constraint_error pkg_name e)
    | out_of_fuel ↦ out_of_fuel
    | done [] ↦ fail (not_found pkg_name)
    | done (p ∷ ps) ↦
        let deps = length (p ∷ ps) in
        if is_nil next
        then next_loop names dq pkg_name deps
        else if ltb deps least
        then next_loop names dq pkg_name deps
        else next_loop names dq next least
  ]

  unfoldable pub next_package : List Bytes → Disqualified → Outcome Bytes
  unfolding next_loop
  next_package names dq = next_loop names dq [] 0
