-- ===== src/Install/Owners.antt =====
-- pkg/apk/install.go: what a whole installation does to the file system and to `installedFiles`.
use go_apk.Base.{List, some, ◌≡◌, ◌⊎◌, In}
use go_apk.Base.Bytes.{Bytes}
use go_apk.Base.Maps.{lookup}
use go_apk.MemFs.{MemFs}
use go_apk.MemFs.Reach.{Reach}
use go_apk.Install.{PackageRef, reg_type, Header, Reader, Library}
use go_apk.Install.Entries.{Apk}
use go_apk.Install.Taken.{MayWrite}

-- A file that the package took: a regular file of the archive with that name which, in a state on the
-- way, was not there or could be replaced.
pub record Took (lib : Library) (pkg : PackageRef) (entries : List (Header × Reader)) (a : Apk)
    (name : Bytes) : Type 0 where
  pub header : Header
  pub reader : Reader
  pub before : Apk
  pub entry : In (header, reader) entries
  pub regular : header.type_flag ≡ reg_type
  pub named : header.name ≡ name
  pub files : Reach a.fs before.fs
  pub free : MayWrite lib before.installed_files header reader pkg before.fs

module _ (lib : Library) (pkg : PackageRef) (es : List (Header × Reader)) where
  -- A file keeps its owner, or the package took it.
  abbrev pub Owned : Apk → Apk → Bytes → Type 0
  Owned a b name =
      (lookup name b.installed_files ≡ lookup name a.installed_files)
      ⊎ ((lookup name b.installed_files ≡ some pkg) × Took lib pkg es a name)

  -- The file system went through operations, and only the package became the owner of files.
  pub record Installs (a b : Apk) : Type 0 where
    pub files : Reach a.fs b.fs
    pub owners : (name : Bytes) → Owned a b name
