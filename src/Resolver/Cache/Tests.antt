-- ===== src/Resolver/Cache/Tests.antt =====
-- The caches after two calls.
use go_apk.Base.{◌≡◌}
use go_apk.Base.Bytes.{Bytes, codes}
use go_apk.Version.Parse.{parse_version}
use go_apk.Constraint.{parse_constraint}
use go_apk.Resolver.Cache.{Caches, cached_version, cached_constraint}
use go_apk.Resolver.Cache.Laws.{no_caches, unused, with_version, with_constraint, cached-Use}

abbrev version : Bytes
version = codes "1.2"

abbrev twice : Caches
twice = (cached_constraint version (cached_version version no_caches).1).1

cached-Use_example :
    ((cached_version version twice).0 ≡ parse_version version)
    × ((cached_constraint version twice).0 ≡ parse_constraint version)
cached-Use_example = cached-Use version (with_constraint version (with_version version unused))
