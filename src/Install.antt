-- ===== src/Install.antt =====
-- pkg/apk/install.go: what installing a package does to the file system in memory.
pub mod Files
pub mod Entries
pub mod Conflicts
pub mod Steps
pub mod Taken
pub mod Owners
pub mod Contents
pub mod Tests
use go_apk.Base.{ℕ, Bool, true, false, List, [], ◌∷◌, ◌++◌, Option, none, some, ◌==◌, if◌then◌else◌}
use go_apk.Base.Bytes.{Bytes, codes, str_eq}
use go_apk.Base.Decimal.{ℤ}
use go_apk.Base.Maps.{Map}
use go_apk.Database.{Package}
use go_apk.MemFs.{Mode, MemFs, Error, Result, ok, err}

-- A `*Package`: pointers differ where their numbers do.
pub record PackageRef : Type 0 where
  pub id : ℕ
  pub value : Package

-- The `Typeflag` of a header.
pub data TypeFlag : Type 0 where
  dir_type reg_type symlink_type link_type other_type : TypeFlag

-- `tar.Header`: `file_mode` is what `FileInfo().Mode()` makes of it.
pub record Header : Type 0 where
  pub name : Bytes
  pub type_flag : TypeFlag
  pub link_name : Bytes
  pub size : ℕ
  pub mode : ℕ
  pub file_mode : Mode
  pub uid : ℤ
  pub gid : ℤ
  pub pax_records : Map Bytes

-- A reader: what its calls of `Read` give, and whether an error follows or the end.
pub record Reader : Type 0 where
  pub chunks : List Bytes
  pub fails : Bool

-- What the code calls: crypto/sha1, a temporary file (`none` is an error, else what reading it back
-- gives) and the order in which Go visits a map.
pub record Library : Type 0 where
  pub sha1 : Bytes → Bytes
  pub temp_file : Bytes → Option (List Bytes)
  pub visit : Map Bytes → Map Bytes

-- `bad_database` is an error in the list of installed packages, and `no_keys_found` is
-- `NoKeysFoundError`. `exists` is `FileExistsError`, with the sum of the file that is there.
pub data Failure : Type 0 where
  file_system : Error → Failure
  exists : Bytes → Failure
  bad_checksum unreadable no_temp_file short_content not_installed different unsupported : Failure
  unfinished no_name bad_database no_keys_found conflict : Failure

pub data Outcome (A : Type 0) : Type 0 where
  done : A → Outcome A
  failed : Failure → Outcome A

-- A step on a state, also where it fails.
abbrev pub Run : Type 0 → Type 0 → Type 0
Run S A = S → S × Outcome A

module _ {S A B : Type 0} where
  abbrev pub chain : S × Outcome A → (A → Run S B) → S × Outcome B
  chain (s, done a) f = f a s
  chain (s, failed e) f = (s, failed e)

  infixl 5 ◌>=>◌
  abbrev pub ◌>=>◌ : Run S A → (A → Run S B) → Run S B
  m >=> f = λ s. chain (m s) f

-- An operation of the file system, its error wrapped.
abbrev pub lift : {A : Type 0} → MemFs × Result A → MemFs × Outcome A
lift (fs, ok a) = (fs, done a)
lift (fs, err e) = (fs, failed (file_system e))

-- Whether a text is in a list of texts.
abbrev pub listed : Bytes → List Bytes → Bool
listed s [] = false
listed s (t ∷ l) = if str_eq s t then true else listed s l

-- `paxRecordsChecksumKey` and `xattrTarPAXRecordsPrefix`.
abbrev pub checksum_key : Bytes
checksum_key = codes "APK-TOOLS.checksum.SHA1"

abbrev pub xattr_prefix : Bytes
xattr_prefix = codes "SCHILY.xattr."
