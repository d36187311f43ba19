-- ===== src/DirFs.antt =====
-- pkg/fs/rwosfs.go: which variant of a name is on a disk that does not tell cases apart.
pub mod Store
pub mod Operations
pub mod Foreign
pub mod Runs
pub mod Laws
pub mod Tests
use Prim.Native.Nat.{◌+◌}
use go_apk.Base.{ℕ, Bool, true, false, List, [], ◌∷◌, Option, none, some, ◌==◌, if◌then◌else◌}
use go_apk.Base.Bytes.{Bytes, str_eq, has_prefix, is_upper}
use go_apk.Base.Maps.{Map, lookup, insert, delete}
use go_apk.Base.Paths.{clean, join_path}

-- `caseMap`: nil on a disk that tells cases apart. Each name in lower case has the variant on disk.
abbrev pub CaseMap : Type 0
CaseMap = Option (Map Bytes)

-- `strings.ToLower`.
unfoldable pub to_lower : Bytes → Bytes
to_lower [] = []
to_lower (c ∷ s) = (if is_upper c then c + 32 else c) ∷ to_lower s

-- `standardizePath`: `none` is the index out of range.
unfoldable pub standardize_path : Bytes → Option Bytes
standardize_path [] = none
standardize_path (c ∷ s) = some (if c == b'/' then s else c ∷ s)

-- `sanitizePath`, with the text that is returned beside its error.
unfoldable pub sanitize_path : Bytes → Bytes → Option Bytes
sanitize_path base p =
    let v = join_path base p in if has_prefix (clean v) base then some v else none

-- Whether the variant is the one on disk.
unfoldable pub look_on_disk : Bytes → Map Bytes → Bool
look_on_disk p m = elim (lookup (to_lower p) m) [ none ↦ true | some v ↦ str_eq v p ]

-- `caseSensitiveOnDisk`.
unfoldable pub case_sensitive_on_disk : CaseMap → Bytes → Option Bool
case_sensitive_on_disk none p = some true
case_sensitive_on_disk (some m) p = elim (standardize_path p) [
  | none ↦ none
  | some s ↦ some (look_on_disk s m)
]

-- `createOnDisk`.
unfoldable pub create_on_disk : CaseMap → Bytes → Option (Bool × CaseMap)
create_on_disk none p = some (true, none)
create_on_disk (some m) p = elim (standardize_path p) [
  | none ↦ none
  | some s ↦ elim (lookup (to_lower s) m) [
    | none ↦ some (true, some (insert (to_lower s) s m))
    | some v ↦ some (str_eq v s, some m)
  ]
]

-- `removeOnDisk`, which takes the name as it is.
unfoldable pub remove_on_disk : CaseMap → Bytes → Bool × CaseMap
remove_on_disk none p = (true, none)
remove_on_disk (some m) p = elim (lookup (to_lower p) m) [
  | none ↦ (false, some m)
  | some v ↦ if str_eq v p then (true, some (delete (to_lower p) m)) else (false, some m)
]
