-- ===== src/Resolver/Cache.antt =====
-- pkg/apk/repo.go: the two caches of `PkgResolver`.
pub mod Laws
pub mod Tests
use go_apk.Base.{Option, none, some}
use go_apk.Base.Bytes.{Bytes}
use go_apk.Base.Maps.{Map, lookup, insert}
use go_apk.Version.{Version}
use go_apk.Version.Parse.{Result, ok, err, parse_version}
use go_apk.Constraint.{Constraint, parse_constraint}

-- `parsedVersions` and `depForVersion`.
pub record Caches : Type 0 where
  pub parsed_versions : Map Version
  pub dep_for_version : Map Constraint

-- `PkgResolver.parseVersion`: errors are not kept.
unfoldable pub cached_version : Bytes → Caches → Result Version × Caches
cached_version version caches = elim (lookup version caches.parsed_versions) [
  | some v ↦ (ok v, caches)
  | none ↦ elim (parse_version version) [
    | err e ↦ (err e, caches)
    | ok v ↦ (ok v, record caches { parsed_versions = insert version v caches.parsed_versions })
  ]
]

-- `PkgResolver.resolvePackageNameVersionPin`.
unfoldable pub cached_constraint : Bytes → Caches → Constraint × Caches
cached_constraint name caches = elim (lookup name caches.dep_for_version) [
  | some c ↦ (c, caches)
  | none ↦
      let c = parse_constraint name in
      (c, record caches { dep_for_version = insert name c caches.dep_for_version })
]
