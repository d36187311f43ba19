-- ===== src/Resolver/Cache/Laws.antt =====
-- pkg/apk/repo.go: the caches only save work.
use go_apk.Base.{[], some, ◌≡◌, ◌⊎◌, refl, inl, inr, arith, Option-cases}
use go_apk.Base.Bytes.{Bytes, str_eq_iff}
use go_apk.Base.Maps.{lookup, lookup-insert}
use go_apk.Version.{Version}
use go_apk.Version.Parse.{Error, Result, ok, err, parse_version}
use go_apk.Constraint.{Constraint, parse_constraint}
use go_apk.Resolver.Cache.{Caches, cached_version, cached_constraint}

-- What is kept is what parsing gives.
pub record IsFaithful (caches : Caches) : Type 0 where
  pub versions :
      (s : Bytes) (v : Version) → lookup s caches.parsed_versions ≡ some v → parse_version s ≡ ok v
  pub constraints :
      (s : Bytes) (c : Constraint)
      → lookup s caches.dep_for_version ≡ some c
      → parse_constraint s ≡ c

-- The calls that use the caches, in sequence.
pub data Use (caches : Caches) : Caches → Type 0 where
  unused : Use caches caches
  with_version :
      {later : Caches} (s : Bytes) → Use caches later → Use caches (cached_version s later).1
  with_constraint :
      {later : Caches} (s : Bytes) → Use caches later → Use caches (cached_constraint s later).1

Result-cases : (r : Result Version) → ((v : Version) × (r ≡ ok v)) ⊎ ((e : Error) × (r ≡ err e))
Result-cases (ok v) = inl (v, refl)
Result-cases (err e) = inr (e, refl)

cached_version_lem :
    (s : Bytes) (caches : Caches)
    → IsFaithful caches
    → ((cached_version s caches).0 ≡ parse_version s) × IsFaithful (cached_version s caches).1
unfolding cached_version
cached_version_lem s caches f = elim (Option-cases (lookup s caches.parsed_versions)) [
  | inr (v, e) ↦ let kept = f.versions s v e in rw (e, cached_version) (ground arith, f)
  | inl e ↦ elim (Result-cases (parse_version s)) [
    | inr (x, g) ↦ rw (e, cached_version) (rw g (refl, f))
    | inl (v, g) ↦
        rw (e, cached_version)
          (rw g (
            refl,
            record {
              versions = λ t w h. ground (
                arith,
                g,
                lookup-insert s t v caches.parsed_versions,
                str_eq_iff s t,
                f.versions t w,
              );
              constraints = f.constraints;
            },
          ))
  ]
]

cached_constraint_lem :
    (s : Bytes) (caches : Caches)
    → IsFaithful caches
    → ((cached_constraint s caches).0 ≡ parse_constraint s)
      × IsFaithful (cached_constraint s caches).1
unfolding cached_constraint
cached_constraint_lem s caches f = elim (Option-cases (lookup s caches.dep_for_version)) [
  | inr (c, e) ↦ let kept = f.constraints s c e in rw (e, cached_constraint) (ground arith, f)
  | inl e ↦
      rw (e, cached_constraint)
        (
          refl,
          record {
            versions = f.versions;
            constraints = λ t c h. ground (
              arith,
              lookup-insert s t (parse_constraint s) caches.dep_for_version,
              str_eq_iff s t,
              f.constraints t c,
            );
          },
        )
]

Use-IsFaithful : {caches later : Caches} → IsFaithful caches → Use caches later → IsFaithful later
Use-IsFaithful f unused = f
Use-IsFaithful f (with_version {later} s u) = (cached_version_lem s later (Use-IsFaithful f u)).1
Use-IsFaithful f (with_constraint {later} s u) =
    (cached_constraint_lem s later (Use-IsFaithful f u)).1

-- The caches of a new resolver.
abbrev pub no_caches : Caches
no_caches = record { parsed_versions = []; dep_for_version = [] }

-- After any sequence of calls on a new resolver, the methods with the caches answer what
-- `ParseVersion` and `resolvePackageNameVersionPin` answer.
pub cached-Use :
    {caches : Caches} (s : Bytes)
    → Use no_caches caches
    → ((cached_version s caches).0 ≡ parse_version s)
      × ((cached_constraint s caches).0 ≡ parse_constraint s)
unfolding lookup
cached-Use {caches} s u =
    let empty : IsFaithful no_caches = record {
      versions = λ t v e. absurd (cc e);
      constraints = λ t c e. absurd (cc e);
    } in
    let f = Use-IsFaithful empty u in
    ((cached_version_lem s caches f).0, (cached_constraint_lem s caches f).0)
