-- ===== src/Resolver/Solve/Dependencies/Gather.antt =====
-- pkg/apk/repo.go: the options that one round of `getPackageDependencies` gathers, and the option
-- that it picks.
use Prim.Native.Nat.{suc, ◌+◌, ◌≤◌, ◌<◌}
use mathlib.Core.Bool.{◌||◌, ◌&&◌}
use go_apk.Base.{
  Bool, false, List, [], ◌∷◌, ◌++◌, Option, none, some, ◌≡◌, ◌≢◌, refl, inl, inr, arith, length,
  keep, is_nil, ltb, ◌==◌, if◌then◌else◌, In, Bool-cases, Option-cases,
}
use go_apk.Base.Bytes.{Bytes, str_eq, str_ltb}
use go_apk.Base.Maps.{Map, lookup, insert, lookup-insert, or_nil}
use go_apk.Constraint.{Constraint, parse_constraint}
use go_apk.Resolver.Package.{Package, Candidate}
use go_apk.Resolver.Index.{Resolver}
use go_apk.Resolver.Filter.{FilterOptions, no_options, filter_packages}
use go_apk.Resolver.Filter.Matches.{filter_packages-Matches}
use go_apk.Resolver.Disqualify.{is_exclusion, behind_first}
use go_apk.Resolver.Solve.{Outcome, done, fail, out_of_fuel}
use go_apk.Resolver.Solve.Dependencies.{State, Options, candidates_for, gather, lowest_loop, keys}

-- Every candidate that a map has under some name has a property.
abbrev pub Everywhere : (Candidate → Type 0) → Map (List Candidate) → Type 0
Everywhere P m =
    (k : Bytes) (cs : List Candidate) → lookup k m ≡ some cs → (c : Candidate) → In c cs → P c

pub length-insert :
    {V : Type 0} (k : Bytes) (v : V) (m : Map V) → length (insert k v m) ≤ length m + 1
unfolding insert
length-insert k v [] = omega arith
length-insert k v ((j, w) ∷ m) = ground (arith, length-insert k v m)

pub Everywhere-insert :
    (P : Candidate → Type 0) (k : Bytes) (cs : List Candidate) (m : Map (List Candidate))
    → ((c : Candidate) → In c cs → P c)
    → Everywhere P m
    → Everywhere P (insert k cs m)
Everywhere-insert P k cs m h all j ds e = elim (Bool-cases (str_eq k j)) [
  | inl f ↦ let same : cs ≡ ds = ground (arith, lookup-insert k j cs m) in rw (← same) h
  | inr f ↦ all j ds (ground (arith, lookup-insert k j cs m))
]

abbrev options_for : Constraint → Bytes → State → FilterOptions
options_for c pin st = record no_options {
  version = c.version;
  compare = c.dep;
  allow_pin = pin;
  installed = lookup c.name st.existing;
}

module _ (r : Resolver) (pkg : Package) (pin : Bytes) (self : Bool) (st : State) where
  pub candidates_for-ne-out_of_fuel :
      (dep : Bytes) → candidates_for r pkg pin self st dep ≢ out_of_fuel
  unfolding candidates_for
  candidates_for-ne-out_of_fuel dep = ground arith

  -- The candidates for a dependency are listed by the resolver.
  candidates_for-Everywhere :
      (P : Candidate → Type 0) (dep : Bytes) (cs : List Candidate)
      → Everywhere P r.name_map
      → candidates_for r pkg pin self st dep ≡ done (some cs)
      → (c : Candidate) → In c cs
      → P c
  unfolding candidates_for
  candidates_for-Everywhere P dep cs all e c i =
      elim (Option-cases (lookup (parse_constraint dep).name r.name_map)) [
        | inl f ↦ absurd (ground arith)
        | inr (listed, f) ↦
            let o = options_for (parse_constraint dep) pin st in
            let g : filter_packages o st.dq listed ≡ cs = ground arith in
            all _ listed f c ((filter_packages-Matches o st.dq listed c).0 (rw g i)).0
      ]

  pub gather-ne-out_of_fuel :
      (deps : List Bytes) (options : Options) (confs : List Bytes)
      → gather r pkg pin self st deps options confs ≢ out_of_fuel
  unfolding gather
  gather-ne-out_of_fuel [] options confs = ground arith
  gather-ne-out_of_fuel (dep ∷ deps) options confs = elim (Bool-cases (is_exclusion dep)) [
    | inl e ↦ rw (e, gather) (gather-ne-out_of_fuel deps options (confs ++ behind_first dep ∷ []))
    | inr e ↦ go (candidates_for r pkg pin self st dep) refl e (gather-ne-out_of_fuel deps)
  ]
    where
      go :
          (o : Outcome (Option (List Candidate)))
          → candidates_for r pkg pin self st dep ≡ o
          → is_exclusion dep ≡ false
          → ((options : Options) (confs : List Bytes)
              → gather r pkg pin self st deps options confs ≢ out_of_fuel)
          → gather r pkg pin self st (dep ∷ deps) options confs ≢ out_of_fuel
      go (done none) f e ih = rw (e, f, gather) (ih options confs)
      go (done (some cs)) f e ih = rw (e, f, gather) (ih (insert dep cs options) confs)
      go (fail x) f e ih = rw (e, f, gather) (ground arith)
      go out_of_fuel f e ih = absurd (candidates_for-ne-out_of_fuel dep f)

  -- What is gathered is listed by the resolver, one option at most for each constraint.
  pub gather-Everywhere :
      (P : Candidate → Type 0) (deps : List Bytes) (options : Options) (confs : List Bytes)
      (options' : Options) (confs' : List Bytes)
      → Everywhere P r.name_map
      → Everywhere P options
      → gather r pkg pin self st deps options confs ≡ done (options', confs')
      → Everywhere P options' × (length options' ≤ length deps + length options)
  unfolding gather
  gather-Everywhere P [] options confs options' confs' all h e =
      let same : options ≡ options' = ground arith in rw (← same) (h, omega arith)
  gather-Everywhere P (dep ∷ deps) options confs options' confs' all h e =
      elim (Bool-cases (is_exclusion dep)) [
        | inl x ↦
            let (rest, n) =
              gather-Everywhere P deps options (confs ++ behind_first dep ∷ []) options' confs' all
                h (ground arith) in
            (rest, omega arith)
        | inr x ↦ go (candidates_for r pkg pin self st dep) refl x (gather-Everywhere P deps)
      ]
    where
      go :
          (o : Outcome (Option (List Candidate)))
          → candidates_for r pkg pin self st dep ≡ o
          → is_exclusion dep ≡ false
          → ((options : Options) (confs : List Bytes) (options' : Options) (confs' : List Bytes)
              → Everywhere P r.name_map
              → Everywhere P options
              → gather r pkg pin self st deps options confs ≡ done (options', confs')
              → Everywhere P options' × (length options' ≤ length deps + length options))
          → Everywhere P options' × (length options' ≤ suc (length deps) + length options)
      go (done none) f x ih =
          let (rest, n) = ih options confs options' confs' all h (ground arith) in
          (rest, omega arith)
      go (done (some cs)) f x ih =
          let (rest, n) =
            ih (insert dep cs options) confs options' confs' all
              (Everywhere-insert P dep cs options (candidates_for-Everywhere P dep cs all f) h)
              (ground arith) in
          (rest, omega (arith, length-insert dep cs options))
      go (fail y) f x ih = absurd (ground arith)
      go out_of_fuel f x ih = absurd (candidates_for-ne-out_of_fuel dep f)

-- The option that is picked is one of those that Go iterates over.
lowest_loop-In :
    (options rest : Options) (lowest : Bytes)
    → In (lowest_loop options rest lowest) (lowest ∷ keys rest)
unfolding lowest_loop
lowest_loop-In options [] lowest = inl refl
lowest_loop-In options ((k, v) ∷ rest) lowest =
    elim (lowest_loop-In options rest (
      if is_nil lowest || ltb (length v) (length (or_nil (lookup lowest options)))
      then k
      else if length v == length (or_nil (lookup lowest options)) && str_ltb k lowest
      then k
      else lowest)) [
        | inr i ↦ inr (inr i)
        | inl e ↦
            elim (Bool-cases
              (is_nil lowest || ltb (length v) (length (or_nil (lookup lowest options))))) [
                | inl f ↦ inr (inl (ground arith))
                | inr f ↦
                    elim (Bool-cases
                      (length v == length (or_nil (lookup lowest options)) && str_ltb k lowest)) [
                        | inl g ↦ inr (inl (ground arith))
                        | inr g ↦ inl (ground arith)
                      ]
              ]
      ]

pub lowest_loop-In-keys :
    (options rest : Options) (k : Bytes) (v : List Candidate)
    → In (lowest_loop options ((k, v) ∷ rest) []) (keys ((k, v) ∷ rest))
unfolding lowest_loop
lowest_loop-In-keys options rest k v = lowest_loop-In options rest k

-- Dropping what equals a member makes a list shorter.
pub length-keep-le : (p : Bytes → Bool) (xs : List Bytes) → length (keep p xs) ≤ length xs
length-keep-le p [] = omega arith
length-keep-le p (x ∷ xs) = ground (arith, length-keep-le p xs)

pub length-keep-lt :
    (p : Bytes → Bool) (x : Bytes) (xs : List Bytes)
    → In x xs
    → p x ≡ false
    → length (keep p xs) < length xs
length-keep-lt p x [] i e = absurd i
length-keep-lt p x (y ∷ xs) (inl f) e =
    let g : p y ≡ false = rw (← f) e in ground (arith, length-keep-le p xs)
length-keep-lt p x (y ∷ xs) (inr i) e = ground (arith, length-keep-lt p x xs i e)
