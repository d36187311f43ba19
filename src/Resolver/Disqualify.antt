-- ===== src/Resolver/Disqualify.antt =====
-- pkg/apk/repo.go: `conflictingVersion`, `disqualifyProviders`, `disqualifyConflicts` and `constrain`.
pub mod Laws
use mathlib.Core.Bool.{not}
use go_apk.Base.{Bool, true, false, List, [], ◌∷◌, Option, none, some, ◌==◌, if◌then◌else◌, is_nil}
use go_apk.Base.Bytes.{Bytes, str_eq}
use go_apk.Base.Maps.{lookup}
use go_apk.Version.{Version, satisfies}
use go_apk.Version.Parse.{ok, err, parse_version}
use go_apk.Constraint.{Constraint, parse_constraint}
use go_apk.Resolver.Package.{
  Package, Candidate, excluded, already_provided, unparsable, unsatisfied, Disqualified, dqed,
  disqualify,
}
use go_apk.Resolver.Index.{Resolver}
use go_apk.Resolver.Filter.{no_options, filter_packages, is_any}

-- The loop of `conflictingVersion`: `none` is its panic.
unfoldable pub conflicting_provides : Constraint → List Bytes → Option Bool
conflicting_provides c [] = none
conflicting_provides c (prov ∷ provs) =
    let rest = conflicting_provides c provs in
    let p = parse_constraint prov in
    if not (str_eq p.name c.name) then rest else some (not (str_eq p.version c.version))

unfoldable pub conflicting_version : Constraint → Package → Option Bool
conflicting_version c p =
    if not (is_nil c.version)
    then some true
    else if str_eq p.name c.name
    then some (not (str_eq p.version c.version))
    else conflicting_provides c p.provides

-- The loop of `disqualifyProviders`.
unfoldable pub exclude_all : Bytes → List Candidate → Disqualified → Disqualified
exclude_all constraint [] dq = dq
exclude_all constraint (c ∷ cs) dq =
    exclude_all constraint cs
      (if dqed c.pkg dq then dq else disqualify dq c.pkg (excluded constraint))

unfoldable pub disqualify_providers : Resolver → Bytes → Disqualified → Disqualified
disqualify_providers r constraint dq =
    let parsed = parse_constraint constraint in
    elim (lookup parsed.name r.name_map) [
      | none ↦ dq
      | some providers ↦
          exclude_all constraint
            (filter_packages
              (record no_options {
                version = parsed.version;
                compare = parsed.dep;
                prefer_pin = parsed.pin;
              })
              dq providers)
            dq
    ]

-- The loop over the providers of one name in `disqualifyConflicts`; `none` is a panic.
unfoldable pub conflict_all :
    Package → Constraint → List Candidate → Disqualified → Option Disqualified
conflict_all pkg constraint [] dq = some dq
conflict_all pkg constraint (c ∷ cs) dq =
    let skip = conflict_all pkg constraint cs dq in
    let drop =
      conflict_all pkg constraint cs (disqualify dq c.pkg (already_provided pkg constraint.name)) in
    if c.pkg.id == pkg.id
    then skip
    else if dqed c.pkg dq
    then skip
    else elim (conflicting_version constraint c.pkg) [
      | none ↦ none
      | some conflicting ↦ if conflicting then drop else skip
    ]

unfoldable pub conflict_provides :
    Resolver → Package → List Bytes → Disqualified → Option Disqualified
conflict_provides r pkg [] dq = some dq
conflict_provides r pkg (prov ∷ provs) dq =
    let constraint = parse_constraint prov in
    elim (lookup constraint.name r.name_map) [
      | none ↦ conflict_provides r pkg provs dq
      | some providers ↦ elim (conflict_all pkg constraint providers dq) [
        | none ↦ none
        | some dq' ↦ conflict_provides r pkg provs dq'
      ]
    ]

unfoldable pub disqualify_conflicts : Resolver → Package → Disqualified → Option Disqualified
disqualify_conflicts r pkg dq = conflict_provides r pkg pkg.provides dq

-- The loop over `provider.Provides` in `constrain`.
unfoldable pub constrain_provides :
    Bytes → Constraint → Version → Package → List Bytes → Disqualified → Disqualified
constrain_provides constraint parsed required p [] dq = dq
constrain_provides constraint parsed required p (prov ∷ provs) dq =
    let pp = parse_constraint prov in
    constrain_provides constraint parsed required p provs (
      if not (str_eq pp.name parsed.name) then dq else elim (parse_version pp.version) [
        | err e ↦ disqualify dq p (unparsable pp.version)
        | ok actual ↦
            if satisfies parsed.dep actual required
            then dq
            else disqualify dq p (unsatisfied prov constraint)
      ])

-- The body of the loop over the providers.
unfoldable pub constrain_provider :
    Bytes → Constraint → Version → Package → Disqualified → Disqualified
unfolding constrain_provides
constrain_provider constraint parsed required p dq =
    if str_eq p.name parsed.name
    then elim (parse_version p.version) [
      | err e ↦ disqualify dq p (unparsable p.version)
      | ok actual ↦
          if satisfies parsed.dep actual required
          then dq
          else disqualify dq p (unsatisfied p.version constraint)
    ]
    else constrain_provides constraint parsed required p p.provides dq

unfoldable pub constrain_providers :
    Bytes → Constraint → Version → List Candidate → Disqualified → Disqualified
constrain_providers constraint parsed required [] dq = dq
constrain_providers constraint parsed required (c ∷ cs) dq =
    constrain_providers constraint parsed required cs
      (constrain_provider constraint parsed required c.pkg dq)

abbrev pub is_exclusion : Bytes → Bool
is_exclusion [] = false
is_exclusion (c ∷ s) = c == b'!'

abbrev pub behind_first : Bytes → Bytes
behind_first [] = []
behind_first (c ∷ s) = s

-- The body of the loop of `constrain`; `none` is the error of an invalid version.
unfoldable pub constrain_one : Resolver → Bytes → Disqualified → Option Disqualified
constrain_one r constraint dq =
    let parsed = parse_constraint constraint in
    if is_exclusion constraint
    then some (disqualify_providers r (behind_first constraint) dq)
    else if is_any parsed.dep
    then some dq
    else elim (lookup parsed.name r.name_map) [
      | none ↦ some dq
      | some providers ↦ elim (parse_version parsed.version) [
        | err e ↦ none
        | ok required ↦ some (constrain_providers constraint parsed required providers dq)
      ]
    ]

unfoldable pub constrain : Resolver → List Bytes → Disqualified → Option Disqualified
constrain r [] dq = some dq
constrain r (constraint ∷ constraints) dq = elim (constrain_one r constraint dq) [
  | none ↦ none
  | some dq' ↦ constrain r constraints dq'
]
