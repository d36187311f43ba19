-- ===== src/Installer/Records.antt =====
-- pkg/apk/installed.go: `AddInstalledPackage`, `GetInstalled` and `isInstalledPackage`.
use Prim.Native.Nat.{◌+◌, ◌/◌, ◌%◌}
use mathlib.Core.Bool.{◌&&◌}
use go_apk.Base.{
  ℕ, Bool, true, false, List, [], ◌∷◌, ◌++◌, Option, none, some, ◌==◌, if◌then◌else◌, is_nil,
}
use go_apk.Base.Bytes.{Bytes, codes, str_eq, has_prefix, join}
use go_apk.Base.Decimal.{ℤ, pos, negsuc, format_int}
use go_apk.Base.Base64.{encode_base64}
use go_apk.Base.Maps.{lookup}
use go_apk.Base.Paths.{slash, base}
use go_apk.Base.Scanner.{newline}
use go_apk.Database
use go_apk.Database.{Package, field, package_to_installed}
use go_apk.Database.Installed.{InstalledPackage, parse_installed}
use go_apk.MemFs.{permissions, MemFs, ok, err}
use go_apk.MemFs.Files.{Flags, read_only, MemFile, open_file, open_to_read, write, copy_all}
use go_apk.Install.{
  Header, file_system, bad_checksum, unfinished, bad_database, Outcome, done, failed, Run, chain,
  ◌>=>◌, lift, checksum_key,
}
use go_apk.Install.Files.{rounds_for, decode_hex}
use go_apk.Installer.Sorting.{is_dir, sort_tar_headers}

abbrev pub installed_path : Bytes
installed_path = codes "lib/apk/db/installed"

-- `strings.TrimSuffix` of one slash.
unfoldable pub trim_slash : Bytes → Bytes
trim_slash [] = []
trim_slash (c ∷ s) = if is_nil s then (if c == slash then [] else c ∷ []) else c ∷ trim_slash s

-- `%04o` of a number below 512.
unfoldable pub format_octal : ℕ → Bytes
format_octal n = b'0' ∷ (b'0' + n / 64) ∷ (b'0' + n / 8 % 8) ∷ (b'0' + n % 8) ∷ []

abbrev pub is_zero : ℤ → Bool
is_zero (pos n) = n == 0
is_zero (negsuc n) = false

abbrev pub perm_of : Header → ℕ
perm_of h = h.mode % 512

abbrev pub is_usual : ℕ → Header → Bool
is_usual usual h = perm_of h == usual && is_zero h.uid && is_zero h.gid

-- Owner, group and permissions, where they are not the usual ones.
unfoldable pub perm_lines : ℕ → ℕ → Header → List Bytes
unfolding format_octal
perm_lines token usual h =
    if is_usual usual h
    then []
    else field token
        (format_int h.uid ++ b':' ∷ (format_int h.gid ++ b':' ∷ format_octal (perm_of h)))
      ∷ []

-- The checksum, which a header has in hexadecimal digits or in base64; `none` is bad digits.
unfoldable pub checksum_line : Header → Option (List Bytes)
checksum_line h = elim (lookup checksum_key h.pax_records) [
  | none ↦ some []
  | some checksum ↦
      if is_nil checksum
      then some []
      else if has_prefix checksum (codes "Q1")
      then some (field b'Z' checksum ∷ [])
      else elim (decode_hex checksum) [
        | none ↦ none
        | some hexsum ↦ some (field b'Z' (b'Q' ∷ b'1' ∷ encode_base64 hexsum) ∷ [])
      ]
]

-- The lines of one file; 0o755 is 493, and 0o644 is 420.
unfoldable pub file_lines : Header → Option (List Bytes)
unfolding trim_slash perm_lines checksum_line
file_lines h =
    if is_dir h
    then some (field b'F' (trim_slash h.name) ∷ perm_lines b'M' 493 h)
    else elim (checksum_line h) [
      | none ↦ none
      | some sum ↦ some (field b'R' (base h.name) ∷ perm_lines b'a' 420 h ++ sum)
    ]

unfoldable pub files_lines : List Header → Option (List Bytes)
unfolding file_lines
files_lines [] = some []
files_lines (h ∷ hs) = elim (file_lines h) [
  | none ↦ none
  | some ls ↦ elim (files_lines hs) [ none ↦ none | some rest ↦ some (ls ++ rest) ]
]

abbrev pub appending : Flags
appending = record read_only { create = true; append = true; write_only = true }

-- What is written: the lines, and an empty one.
abbrev pub entry_text : List Bytes → Bytes
entry_text lines = join lines newline ++ newline ∷ newline ∷ []

unfoldable pub write_entry : Package → Option (List Header) → MemFile → Run MemFs (Unit {0})
unfolding files_lines
write_entry pkg none f fs = (fs, failed unfinished)
write_entry pkg (some sorted) f fs = elim (files_lines sorted) [
  | none ↦ (fs, failed bad_checksum)
  | some lines ↦
      chain (lift (write f (entry_text (package_to_installed pkg ++ lines)) fs))
        λ f' s. (s, done tt)
]

-- `AddInstalledPackage`: `depth` is that of `sort_tar_headers`.
unfoldable pub add_installed_package : ℕ → Package → List Header → Run MemFs (Unit {0})
unfolding write_entry
add_installed_package depth pkg files =
    (λ fs. lift (open_file installed_path appending (permissions 420) fs))
    >=> write_entry pkg (sort_tar_headers depth files)

-- What is read of a file that was opened.
abbrev pub read_opened : MemFs × Outcome MemFile → Outcome Bytes
read_opened (fs, failed e) = failed e
read_opened (fs, done f) = elim (copy_all (rounds_for fs f) fs f []) [
  | none ↦ failed unfinished
  | some (err e) ↦ failed (file_system e)
  | some (ok b) ↦ done b
]

-- `GetInstalled`.
unfoldable pub get_installed : MemFs → Outcome (List InstalledPackage)
get_installed fs = elim (read_opened (lift (open_to_read installed_path fs))) [
  | failed e ↦ failed e
  | done s ↦ elim (parse_installed s) [
    | Database.err e ↦ failed bad_database
    | Database.ok packages ↦ done packages
  ]
]

abbrev pub has_name : Bytes → List InstalledPackage → Bool
has_name name [] = false
has_name name (p ∷ ps) = if str_eq p.pkg.name name then true else has_name name ps

-- `isInstalledPackage`.
unfoldable pub is_installed_package : Bytes → MemFs → Outcome Bool
unfolding get_installed
is_installed_package name fs = elim (get_installed fs) [
  | failed e ↦ failed e
  | done packages ↦ done (has_name name packages)
]
