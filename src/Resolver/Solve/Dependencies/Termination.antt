-- ===== src/Resolver/Solve/Dependencies/Termination.antt =====
-- pkg/apk/repo.go: `getPackageDependencies` ends, also where dependencies are cyclic.
use Prim.Native.Nat.{zero, suc, ◌+◌, ◌≤◌, ◌<◌}
use mathlib.Core.Bool.{not}
use go_apk.Base.{
  ℕ, Bool, true, List, [], ◌∷◌, ◌++◌, Option, none, some, ◌≡◌, ◌≢◌, refl, ◌∙◌, sym, inl, inr, arith,
  length, keep, In, Bool-cases, Option-cases,
}
use go_apk.Base.Bytes.{Bytes, str_eq, str_eq_refl}
use go_apk.Base.Maps.{lookup, or_nil}
use go_apk.Constraint.{parse_constraint}
use go_apk.Resolver.Package.{Package, Candidate}
use go_apk.Resolver.Index.{Resolver, flat}
use go_apk.Resolver.Solve.Dependencies.Unvisited.{
  names, names_of-In, flat-Everywhere, unvisited, length-unvisited-lt,
}
use go_apk.Resolver.Compare.{Preferences, Slices, str_mem, best_package, compare_packages}
use go_apk.Resolver.Compare.Preorder.{MinLaws}
use go_apk.Resolver.Disqualify.{disqualify_conflicts, constrain}
use go_apk.Resolver.Solve.{
  Error, dep_error, Outcome, ◌>>=◌, done, fail, out_of_fuel, wrapped, or_panic, >>=-ne-out_of_fuel,
}
use go_apk.Resolver.Solve.Dependencies.{
  State, Options, Found, lowest_loop, keys, pick, record_existing, solve_loop, package_dependencies,
}
use go_apk.Resolver.Solve.Dependencies.Gather.{
  Everywhere, gather-ne-out_of_fuel, gather-Everywhere, lowest_loop-In-keys, length-keep-lt,
}

-- What is documented of `slices.DeleteFunc`, and of iterating over a map: no key is visited twice.
pub record LoopLaws (lib : Slices) (order : Options → Options) : Type 0 where
  pub deleted :
      (p : Bytes → Bool) (xs : List Bytes) → lib.delete_func p xs ≡ keep (λ s. not (p s)) xs
  pub visited : (m : Options) → length (order m) ≤ length m

length-keys : (m : Options) → length (keys m) ≡ length m
length-keys [] = refl
length-keys ((k, v) ∷ m) = omega (arith, length-keys m)

module _ (lib : Slices) (min : MinLaws lib) (P : Candidate → Type 0) where
  best-Everywhere :
      (o : Preferences) (cs : List Candidate) (best : Candidate)
      → ((c : Candidate) → In c cs → P c)
      → best_package lib o cs ≡ some best
      → P best
  unfolding best_package
  best-Everywhere o [] best all e = absurd (ground arith)
  best-Everywhere o (c ∷ cs) best all e =
      let same : lib.min_func (compare_packages o) c cs ≡ best = ground arith in
      rw (← same)
        (all (lib.min_func (compare_packages o) c cs) (min.member (compare_packages o) c cs))

or_nil-Everywhere :
    (P : Candidate → Type 0) (options : Options) (k : Bytes)
    → Everywhere P options
    → (c : Candidate) → In c (or_nil (lookup k options))
    → P c
or_nil-Everywhere P options k all c i = elim (Option-cases (lookup k options)) [
  | inl f ↦ absurd (rw f at i)
  | inr (cs, f) ↦ all k cs f c (rw f at i)
]

or_panic-ne-out_of_fuel : {A : Type 0} (o : Option A) → or_panic o ≢ out_of_fuel
or_panic-ne-out_of_fuel none = ground arith
or_panic-ne-out_of_fuel (some a) = ground arith

wrapped-ne-out_of_fuel :
    {A : Type 0} (wrap : Error → Error) (o : Outcome A)
    → o ≢ out_of_fuel
    → wrapped wrap o ≢ out_of_fuel
wrapped-ne-out_of_fuel wrap (done a) h = ground arith
wrapped-ne-out_of_fuel wrap (fail e) h = ground arith
wrapped-ne-out_of_fuel wrap out_of_fuel h = absurd (h refl)

abbrev Ends : Outcome Found → Type 0
Ends o = o ≢ out_of_fuel

-- The preferences with which one round picks a candidate.
abbrev wanted : State → Bytes → Preferences
wanted st lowest = record {
  compare = none;
  name = (parse_constraint lowest).name;
  existing = st.existing;
  existing_origins = st.existing_origins;
  pin = [];
}

module _ (lib : Slices) (order : Options → Options) (r : Resolver) (min : MinLaws lib)
    (laws : LoopLaws lib order) where
  pick-ne-out_of_fuel : (st : State) (options : Options) → pick lib order r st options ≢ out_of_fuel
  unfolding pick
  pick-ne-out_of_fuel st options = ground arith

  -- The picked candidate is one of the options, and fewer constraints are left than options.
  pick-Everywhere :
      (P : Candidate → Type 0) (st : State) (options : Options) (best : Candidate)
      (rest : List Bytes)
      → Everywhere P options
      → pick lib order r st options ≡ done (some (best, rest))
      → P best × (length rest < length options)
  unfolding pick
  pick-Everywhere P st options best rest all e = go (order options) refl
    where
      go : (m : Options) → order options ≡ m → P best × (length rest < length options)
      go [] f = absurd (ground arith)
      go ((k, v) ∷ m) f =
          let lowest = lowest_loop options ((k, v) ∷ m) [] in
          let present = lowest_loop-In-keys options m k v in
          let fewer =
            length-keep-lt (λ s. not (str_eq s lowest)) lowest (keys ((k, v) ∷ m)) present
              (rw (str_eq_refl lowest) refl) in
          elim (Option-cases
            (best_package lib (wanted st lowest) (or_nil (lookup lowest options)))) [
              | inl g ↦ absurd (ground arith)
              | inr (c, g) ↦
                  let same : c ≡ best = ground arith in
                  let left : lib.delete_func (λ s. str_eq s lowest) (keys ((k, v) ∷ m)) ≡ rest =
                    ground arith in
                  let kept : keep (λ s. not (str_eq s lowest)) (keys ((k, v) ∷ m)) ≡ rest =
                    sym (laws.deleted (λ s. str_eq s lowest) (keys ((k, v) ∷ m))) ∙ left in
                  let shorter : length rest < length (keys ((k, v) ∷ m)) = rw (← kept) fewer in
                  let visits : length ((k, v) ∷ m) ≤ length options =
                    let n : length (order options) ≡ length ((k, v) ∷ m) = rw f refl in
                    omega (arith, laws.visited options, n) in
                  (
                    rw (← same) (
                        best-Everywhere lib min P (wanted st lowest)
                          (or_nil (lookup lowest options)) c
                          (or_nil-Everywhere P options lowest all) g),
                    omega (arith, length-keys m),
                  )
            ]

  -- A loop whose recursive calls end makes at most one round for each constraint.
  solve_loop-ne-out_of_fuel :
      (P : Candidate → Type 0) (visit : Package → State → Outcome Found) (pkg : Package)
      (pin : Bytes) (self : Bool) (fuel : ℕ) (cs : List Bytes) (st : State) (deps : List Package)
      (confs : List Bytes)
      → Everywhere P r.name_map
      → ((c : Candidate) (s : State) → P c → visit c.pkg s ≢ out_of_fuel)
      → length cs ≤ fuel
      → solve_loop lib order r visit pkg pin self fuel cs st deps confs ≢ out_of_fuel
  unfolding solve_loop
  solve_loop-ne-out_of_fuel P visit pkg pin self fuel [] st deps confs all ends n = ground arith
  solve_loop-ne-out_of_fuel P visit pkg pin self zero (c ∷ cs) st deps confs all ends n =
      absurd (omega arith)
  solve_loop-ne-out_of_fuel P visit pkg pin self (suc fuel) (c ∷ cs) st deps confs all ends n =
      >>=-ne-out_of_fuel _ _ (gather-ne-out_of_fuel r pkg pin self st (c ∷ cs) [] confs)
        λ (options, confs') e.
          let (listed, m) =
            gather-Everywhere r pkg pin self st P (c ∷ cs) [] confs options confs' all
              (λ k ds f. absurd (unfold lookup in ground arith)) e in
          >>=-ne-out_of_fuel _ _ (pick-ne-out_of_fuel st options) λ picked f.
            go options confs' listed m picked f λ rest s d x h.
              solve_loop-ne-out_of_fuel P visit pkg pin self fuel rest s d x all ends h
    where
      go :
          (options : Options) (confs' : List Bytes)
          → Everywhere P options
          → length options ≤ suc (length cs) + 0
          → (picked : Option (Candidate × List Bytes)) → pick lib order r st options ≡ done picked
          → ((rest : List Bytes) (s : State) (d : List Package) (x : List Bytes)
              → length rest ≤ fuel
              → solve_loop lib order r visit pkg pin self fuel rest s d x ≢ out_of_fuel)
          → Ends (elim picked as (λ k. Outcome Found) [
            | none ↦ done (deps, confs', st)
            | some (best, rest) ↦ do
              dq ← or_panic (disqualify_conflicts r best.pkg st.dq)
              (sub, subconfs, st') ←
                  wrapped (dep_error pkg) (visit best.pkg (record st { dq = dq }))
              solve_loop lib order r visit pkg pin self fuel rest
                  (record_existing sub st')
                  (deps ++ (sub ++ best.pkg ∷ []))
                  (confs' ++ subconfs)
          ])
      go options confs' listed m none f ih = ground arith
      go options confs' listed m (some (best, rest)) f ih =
          let (p, fewer) = pick-Everywhere P st options best rest listed f in
          >>=-ne-out_of_fuel _ _ (or_panic-ne-out_of_fuel (disqualify_conflicts r best.pkg st.dq))
            λ dq g.
              >>=-ne-out_of_fuel _ _
                (wrapped-ne-out_of_fuel (dep_error pkg) _ (ends best (record st { dq = dq }) p))
                λ (sub, subconfs, st') h. ih rest _ _ _ (omega arith)

module _ (lib : Slices) (order : Options → Options) (r : Resolver) where
  -- `getPackageDependencies` of a package that the resolver lists ends, whatever cycles the
  -- dependencies have: with more fuel than there are listed names that are not of a parent, it does
  -- not run out. The library finds a minimum and deletes as documented, and no key is visited twice.
  pub package_dependencies_ends :
      MinLaws lib
      → LoopLaws lib order
      → (fuel : ℕ) (pkg : Package) (pin : Bytes) (self : Bool) (parents : List Bytes) (st : State)
      → In pkg.name (names r)
      → length (unvisited parents (names r)) < fuel
      → package_dependencies lib order r fuel pkg pin self parents st ≢ out_of_fuel
  unfolding package_dependencies
  package_dependencies_ends min laws zero pkg pin self parents st i n = absurd (omega arith)
  package_dependencies_ends min laws (suc fuel) pkg pin self parents st i n =
      elim (Bool-cases (str_mem pkg.name parents)) [
        | inl e ↦ ground arith
        | inr e ↦ elim (Option-cases (constrain r pkg.dependencies st.dq)) [
          | inl f ↦ ground arith
          | inr (dq, f) ↦
              rw (e, f)
                (solve_loop-ne-out_of_fuel lib order r min laws (λ c. In c.pkg.name (names r))
                  (λ p s. package_dependencies lib order r fuel p pin true (pkg.name ∷ parents) s)
                  pkg pin self (length pkg.dependencies) pkg.dependencies (record st { dq = dq }) []
                  []
                  (λ k cs g c j.
                    names_of-In (flat r.name_map) c (flat-Everywhere r.name_map k cs g c j))
                  (λ c s j.
                    package_dependencies_ends min laws fuel c.pkg pin true (pkg.name ∷ parents) s j
                      (omega (arith, length-unvisited-lt pkg.name parents (names r) i e)))
                  (omega arith))
        ]
      ]
