-- ===== src/Installer/InitDb.antt =====
-- pkg/apk/implementation.go: `ListInitFiles` and `InitDB`; pkg/apk/releases.go.
use Prim.Native.Nat.{◌+◌, ◌%◌}
use mathlib.Core.Bool.{not}
use go_apk.Base.{ℕ, Bool, List, [], ◌∷◌, ◌++◌, ◌==◌, if◌then◌else◌, is_nil}
use go_apk.Base.Bytes.{Bytes, codes}
use go_apk.Base.Decimal.{pos}
use go_apk.Base.Scanner.{newline}
use go_apk.MemFs.{permissions, Node, MemFs, Error, not_exist, exist, Result, ok, err}
use go_apk.MemFs.Lookup.{stat}
use go_apk.MemFs.Entries.{mkdir, Unix, mknod}
use go_apk.MemFs.Files.{MemFile, open_file, write, write_file}
use go_apk.Install.{
  TypeFlag, dir_type, reg_type, other_type, Header, Failure, no_keys_found, Outcome, done, failed,
}
use go_apk.Install.Files.{creating}
use go_apk.Installer.Keys.{Network, fetch_alpine_keys}

-- `directory`, `file` and `deviceFile`.
pub record Directory : Type 0 where
  pub path : Bytes
  pub perms : ℕ

pub record File : Type 0 where
  pub path : Bytes
  pub perms : ℕ
  pub contents : Bytes

pub record DeviceFile : Type 0 where
  pub path : Bytes
  pub major : ℕ
  pub minor : ℕ
  pub perms : ℕ

abbrev pub directory : Bytes → ℕ → Directory
directory path perms = record { path = path; perms = perms }

abbrev pub file : Bytes → ℕ → Bytes → File
file path perms contents = record { path = path; perms = perms; contents = contents }

abbrev pub device : Bytes → ℕ → ℕ → ℕ → DeviceFile
device path major minor perms = record { path = path; major = major; minor = minor; perms = perms }

-- `fs.ModeSticky`.
abbrev pub mode_sticky : ℕ
mode_sticky = 1048576

-- `baseDirectories`; 0o777 is 511, 0o755 is 493, and 0o555 is 365.
abbrev pub base_directories : List Directory
base_directories =
    directory (codes "/tmp") (511 + mode_sticky)
    ∷ directory (codes "/dev") 493
    ∷ directory (codes "/etc") 493
    ∷ directory (codes "/lib") 493
    ∷ directory (codes "/proc") 365
    ∷ directory (codes "/var") 493
    ∷ []

-- `initDirectories`.
abbrev pub init_directories : List Directory
init_directories =
    directory (codes "/etc/apk") 493
    ∷ directory (codes "/etc/apk/keys") 493
    ∷ directory (codes "/lib/apk") 493
    ∷ directory (codes "/lib/apk/db") 493
    ∷ directory (codes "/var/cache") 493
    ∷ directory (codes "/var/cache/apk") 493
    ∷ directory (codes "/var/cache/misc") 493
    ∷ []

-- `initFiles`; 0o644 is 420, and 0o600 is 384.
abbrev pub init_files : List File
init_files =
    file (codes "/etc/apk/world") 420 (newline ∷ [])
    ∷ file (codes "/etc/apk/repositories") 420 (newline ∷ [])
    ∷ file (codes "/lib/apk/db/lock") 384 []
    ∷ file (codes "/lib/apk/db/triggers") 420 []
    ∷ file (codes "/lib/apk/db/installed") 420 []
    ∷ []

-- `initDeviceFiles`; 0o666 is 438, and 0o620 is 400.
abbrev pub init_device_files : List DeviceFile
init_device_files =
    device (codes "/dev/zero") 1 5 438
    ∷ device (codes "/dev/urandom") 1 9 438
    ∷ device (codes "/dev/null") 1 3 438
    ∷ device (codes "/dev/random") 1 8 438
    ∷ device (codes "/dev/console") 5 1 400
    ∷ []

abbrev pub scripts_path : Bytes
scripts_path = codes "lib/apk/db/scripts.tar"

abbrev pub arch_file : Bytes → File
arch_file arch = file (codes "/etc/apk/arch") 420 (arch ++ newline ∷ [])

-- A header of `ListInitFiles`: `file_mode` is left at the type, which a reader of headers adds.
abbrev pub init_header : Bytes → ℕ → TypeFlag → Header
init_header path perms type_flag = record {
  name = path;
  type_flag = type_flag;
  link_name = [];
  size = 0;
  mode = perms;
  file_mode = permissions (perms % 512);
  uid = pos 0;
  gid = pos 0;
  pax_records = [];
}

abbrev pub map_to : {A : Type 0} → (A → Header) → List A → List Header
map_to f [] = []
map_to f (x ∷ xs) = f x ∷ map_to f xs

-- `ListInitFiles`; `other_type` stands for `tar.TypeChar`.
unfoldable pub list_init_files : Bytes → List Header
list_init_files arch =
    map_to (λ e. init_header e.path e.perms dir_type) init_directories
    ++ (map_to (λ e. init_header e.path e.perms reg_type) (init_files ++ arch_file arch ∷ [])
        ++ (map_to (λ e. init_header e.path e.perms other_type) init_device_files
            ++ init_header scripts_path 420 reg_type ∷ []))

-- What `InitDB` returns an error for.
pub data InitError : Type 0 where
  failed_create cannot_stat : Bytes → Error → InitError
  is_no_directory wrong_permissions : Bytes → InitError
  no_tar_file : Error → InitError
  no_keys : Failure → InitError

-- A step that leaves a file system, and may fail.
pub data Init : Type 0 where
  finished : Init
  stopped : InitError → Init

abbrev pub and_finish : MemFs × Init → (MemFs → MemFs × Init) → MemFs × Init
and_finish (fs, finished) f = f fs
and_finish (fs, stopped e) f = (fs, stopped e)

abbrev pub unless_failed : (Error → InitError) → MemFs × Result (Unit {0}) → MemFs × Init
unless_failed f (fs, ok u) = (fs, finished)
unless_failed f (fs, err e) = (fs, stopped (f e))

-- One base directory: it is made, or checked. `Perm()` has the last nine bits of a mode.
abbrev pub check_base : Directory → Node → MemFs → MemFs × Init
check_base d n fs =
    if not n.dir
    then (fs, stopped (is_no_directory d.path))
    else if not (n.mode.bits % 512 == d.perms)
    then (fs, stopped (wrong_permissions d.path))
    else (fs, finished)

abbrev pub settle_base : Directory → Result Node → MemFs → MemFs × Init
settle_base d (err not_exist) fs =
    unless_failed (failed_create d.path) (mkdir d.path (permissions d.perms) fs)
settle_base d (err e) fs = (fs, stopped (cannot_stat d.path e))
settle_base d (ok n) fs = check_base d n fs

unfoldable pub init_base : Directory → MemFs → MemFs × Init
init_base d fs = settle_base d (stat fs d.path) fs

abbrev pub check_dir : Bytes → Result Node → MemFs → MemFs × Init
check_dir path (err e) fs = (fs, stopped (cannot_stat path e))
check_dir path (ok n) fs = if n.dir then (fs, finished) else (fs, stopped (is_no_directory path))

abbrev pub settle_dir : Bytes → MemFs × Result (Unit {0}) → MemFs × Init
settle_dir path (fs, ok u) = (fs, finished)
settle_dir path (fs, err exist) = check_dir path (stat fs path) fs
settle_dir path (fs, err e) = (fs, stopped (failed_create path e))

-- One directory of the database, which may be there.
unfoldable pub init_dir : Directory → MemFs → MemFs × Init
init_dir d fs = settle_dir d.path (mkdir d.path (permissions d.perms) fs)

unfoldable pub init_file : File → MemFs → MemFs × Init
init_file f fs =
    unless_failed (failed_create f.path) (write_file f.path f.contents (permissions f.perms) fs)

-- `unix.S_IFCHR`, which is no bit of the type of an `fs.FileMode`.
abbrev pub s_ifchr : ℕ
s_ifchr = 8192

abbrev pub ignoring : Bool → MemFs × Init → MemFs × Init
ignoring ignore (fs, finished) = (fs, finished)
ignoring ignore (fs, stopped e) = if ignore then (fs, finished) else (fs, stopped e)

unfoldable pub init_device : Unix → Bool → DeviceFile → MemFs → MemFs × Init
init_device unix ignore d fs = ignoring ignore (
    unless_failed (failed_create d.path)
      (mknod unix d.path (permissions (s_ifchr + d.perms % 512)) (unix.mkdev d.major d.minor) fs))

unfoldable pub each : {A : Type 0} → (A → MemFs → MemFs × Init) → List A → MemFs → MemFs × Init
each f [] fs = (fs, finished)
each f (x ∷ xs) fs = and_finish (f x fs) (each f xs)

-- What is done to the file system before the archive of scripts.
unfoldable pub init_entries : Unix → Bool → Bytes → MemFs → MemFs × Init
unfolding init_base init_dir init_file init_device each
init_entries unix ignore arch fs = and_finish (each init_base base_directories fs) λ fs.
    and_finish (each init_dir init_directories fs) λ fs.
      and_finish (each init_file (init_files ++ arch_file arch ∷ []) fs)
        (each (init_device unix ignore) init_device_files)

-- Keys that are not found are no error.
abbrev pub as_init : MemFs × Outcome (Unit {0}) → MemFs × Init
as_init (fs, done u) = (fs, finished)
as_init (fs, failed no_keys_found) = (fs, finished)
as_init (fs, failed e) = (fs, stopped (no_keys e))

abbrev pub init_keys : Network → Bytes → List Bytes → MemFs → MemFs × Init
init_keys net arch versions fs =
    if is_nil versions then (fs, finished) else as_init (fetch_alpine_keys net arch versions fs)

-- The footer of an archive is written as it is closed, also after an error, and errors of that are
-- not looked at.
abbrev pub close_tar : Bytes → MemFile → MemFs × Init → MemFs × Init
close_tar footer f (fs, r) = ((write f footer fs).0, r)

abbrev pub init_scripts :
    Network → Bytes → Bytes → List Bytes → MemFs × Result MemFile → MemFs × Init
init_scripts net footer arch versions (fs, err e) = (fs, stopped (no_tar_file e))
init_scripts net footer arch versions (fs, ok f) =
    close_tar footer f (init_keys net arch versions fs)

-- `InitDB`: `footer` is what archive/tar writes at the end of an archive.
unfoldable pub init_db : Unix → Network → Bool → Bytes → Bytes → List Bytes → MemFs → MemFs × Init
unfolding init_entries
init_db unix net ignore footer arch versions fs =
    and_finish (init_entries unix ignore arch fs) λ s.
      init_scripts net footer arch versions (open_file scripts_path creating (permissions 420) s)
