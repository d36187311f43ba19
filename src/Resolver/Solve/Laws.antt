-- ===== src/Resolver/Solve/Laws.antt =====
-- pkg/apk/repo.go: what `resolvePackage` returns.
use go_apk.Base.{List, [], ◌∷◌, some, ◌≡◌, refl, inl, inr, arith, In, Option-cases}
use go_apk.Base.Bytes.{Bytes}
use go_apk.Base.Maps.{lookup}
use go_apk.Constraint.{parse_constraint}
use go_apk.Resolver.Package.{Package, Candidate, Disqualified}
use go_apk.Resolver.Index.{Resolver}
use go_apk.Resolver.Filter.{FilterOptions, no_options, filter_packages}
use go_apk.Resolver.Filter.Matches.{Matches, filter_packages-Matches}
use go_apk.Resolver.Compare.{Slices, best_package, compare_packages}
use go_apk.Resolver.Compare.Preorder.{MinLaws}
use go_apk.Resolver.Solve.{done, matching, preferences, resolve_package}

-- The options with which the candidates for a constraint are filtered.
abbrev pub options_of : Bytes → FilterOptions
options_of pkg_name =
    let c = parse_constraint pkg_name in
    record no_options { version = c.version; compare = c.dep; prefer_pin = c.pin }

-- The package is that of a candidate for the constraint which is listed under its name.
pub record IsCandidateFor (r : Resolver) (pkg_name : Bytes) (dq : Disqualified) (p : Package)
    : Type 0 where
  pub listed : List Candidate
  pub chosen : Candidate
  pub under_name : lookup (parse_constraint pkg_name).name r.name_map ≡ some listed
  pub present : In chosen listed
  pub matches : Matches (options_of pkg_name) dq chosen
  pub same : chosen.pkg ≡ p

module _ (lib : Slices) (r : Resolver) (pkg_name : Bytes) (dq : Disqualified) where
  sound :
      (p : Package)
      → MinLaws lib
      → resolve_package lib r pkg_name dq ≡ done p
      → IsCandidateFor r pkg_name dq p
  unfolding resolve_package matching
  sound p min e = elim (Option-cases (lookup (parse_constraint pkg_name).name r.name_map)) [
    | inl f ↦ absurd (ground arith)
    | inr (all, f) ↦ go all f (filter_packages (options_of pkg_name) dq all) refl
  ]
    where
      go :
          (all : List Candidate)
          → lookup (parse_constraint pkg_name).name r.name_map ≡ some all
          → (passed : List Candidate) → filter_packages (options_of pkg_name) dq all ≡ passed
          → IsCandidateFor r pkg_name dq p
      go all f [] g = absurd (ground arith)
      go all f (d ∷ ds) g =
          let c = parse_constraint pkg_name in
          let best = lib.min_func (compare_packages (preferences c.name c.pin)) d ds in
          let present : In best (filter_packages (options_of pkg_name) dq all) =
            rw g (min.member (compare_packages (preferences c.name c.pin)) d ds) in
          let (i, m) = (filter_packages-Matches (options_of pkg_name) dq all best).0 present in
          record {
            listed = all;
            chosen = best;
            under_name = f;
            present = i;
            matches = m;
            same = unfold best_package in ground arith;
          }

  complete :
      (p : Package)
      → IsCandidateFor r pkg_name dq p
      → (q : Package) × (resolve_package lib r pkg_name dq ≡ done q)
  unfolding resolve_package matching
  complete p h = go (filter_packages (options_of pkg_name) dq h.listed) refl
    where
      go :
          (passed : List Candidate)
          → filter_packages (options_of pkg_name) dq h.listed ≡ passed
          → (q : Package) × (resolve_package lib r pkg_name dq ≡ done q)
      go [] g =
          let i : In h.chosen (filter_packages (options_of pkg_name) dq h.listed) =
            (filter_packages-Matches (options_of pkg_name) dq h.listed h.chosen).1
              (h.present, h.matches) in
          absurd (rw g at i)
      go (c ∷ cs) g = (
        (lib.min_func
            (compare_packages
              (preferences (parse_constraint pkg_name).name (parse_constraint pkg_name).pin))
            c cs).pkg,
        unfold best_package in ground (arith, h.under_name),
      )

  -- Where the library finds a minimum as documented, a package that `resolvePackage` returns is a
  -- candidate for the constraint that is listed under its name and that the filter lets through, so
  -- it is not disqualified; and where there is such a candidate, `resolvePackage` returns a package.
  pub resolve_package-IsCandidateFor :
      MinLaws lib
      → ((p : Package)
          → resolve_package lib r pkg_name dq ≡ done p
          → IsCandidateFor r pkg_name dq p)
        × ((p : Package)
            → IsCandidateFor r pkg_name dq p
            → (q : Package) × (resolve_package lib r pkg_name dq ≡ done q))
  resolve_package-IsCandidateFor min = (λ p e. sound p min e, complete)
