-- ===== src/Database/Installed.antt =====
-- pkg/apk/installed.go: `ParseInstalled` and `parseInstalledPerms`; pkg/apk/common.go:
-- `sanitizeArchivePath`.
use Prim.Native.Nat.{suc}
use go_apk.Base.{
  ℕ, Bool, true, false, List, [], ◌∷◌, ◌++◌, Option, none, some, ◌==◌, if◌then◌else◌, is_nil,
}
use go_apk.Base.Bytes.{Bytes, has_prefix, split}
use go_apk.Base.Decimal.{ℤ, pos, parse_int}
use go_apk.Base.Paths.{clean, join_path}
use go_apk.Base.Scanner.{max_token, scan}
use go_apk.Database.{
  Package, no_package, no_colon, no_directory, no_file, bad_permissions, panicked, Result, ok, err,
  space, set_field,
}

-- `tar.Header`, as far as the parser sets it.
pub record Header : Type 0 where
  pub name : Bytes
  pub mode : ℤ
  pub uid : ℤ
  pub gid : ℤ
  pub is_dir : Bool

pub record InstalledPackage : Type 0 where
  pub pkg : Package
  pub files : List Header

-- What the loop keeps between lines.
pub record Progress : Type 0 where
  pub current : InstalledPackage
  pub last_dir : Option Header
  pub last_file : Option Header

abbrev pub nothing : Progress
nothing = record {
  current = record { pkg = no_package; files = [] };
  last_dir = none;
  last_file = none;
}

-- `sanitizeArchivePath`, with the text that is returned beside its error.
unfoldable pub sanitize_archive_path : Bytes → Bytes → Bytes
sanitize_archive_path d t = let v = join_path d t in if has_prefix v (clean d) then v else []

-- `parseInstalledPerms`.
unfoldable pub parse_installed_perms : Bytes → Option (ℤ × ℤ × ℤ)
parse_installed_perms perm_string = elim (split perm_string b':') [
  | [] ↦ none
  | u ∷ [] ↦ none
  | u ∷ g ∷ [] ↦ none
  | u ∷ g ∷ m ∷ [] ↦ elim (parse_int 10 u) [
    | none ↦ none
    | some uid ↦ elim (parse_int 10 g) [
      | none ↦ none
      | some gid ↦ elim (parse_int 8 m) [ none ↦ none | some perms ↦ some (uid, gid, perms) ]
    ]
  ]
  | u ∷ g ∷ m ∷ x ∷ xs ↦ none
]

abbrev pub new_header : Bytes → ℕ → Bool → Header
new_header name mode is_dir = record {
  name = name;
  mode = pos mode;
  uid = pos 0;
  gid = pos 0;
  is_dir = is_dir;
}

abbrev pub set_perms : Header → ℤ × ℤ × ℤ → Header
set_perms h (uid, gid, perms) = record h { uid = uid; gid = gid; mode = perms }

-- A header is copied into the list of files: what is set later does not reach the copy.
abbrev pub add_file : InstalledPackage → Header → InstalledPackage
add_file p h = record p { files = p.files ++ h ∷ [] }

-- The switch: the cases of directories and files, of what is replaced, and those of all packages.
unfoldable pub installed_field : ℕ → ℕ → Bytes → Progress → Result Progress
installed_field nr token val s =
    if token == b'r'
    then ok (record s {
      current = record {
        pkg = record s.current.pkg { replaces = split val space };
        files = s.current.files;
      };
    })
    else if token == b'F'
    then (let dir = new_header val 493 true in
        ok (record { current = add_file s.current dir; last_dir = some dir; last_file = none }))
    else if token == b'M'
    then elim s.last_dir [
      | none ↦ err (no_directory nr)
      | some dir ↦ elim (parse_installed_perms val) [
        | none ↦ err (bad_permissions nr)
        | some perms ↦ ok (record s { last_dir = some (set_perms dir perms) })
      ]
    ]
    else if token == b'R'
    then (let fullpath : Bytes = elim s.last_dir [
      | none ↦ val
      | some dir ↦ sanitize_archive_path dir.name val
    ] in
        let file = new_header fullpath 420 false in
        ok (record s { current = add_file s.current file; last_file = some file }))
    else if token == b'a'
    then elim s.last_file [
      | none ↦ err (no_file nr)
      | some file ↦ elim (parse_installed_perms val) [
        | none ↦ err (bad_permissions nr)
        | some perms ↦ ok (record s { last_file = some (set_perms file perms) })
      ]
    ]
    else elim (set_field (λ v. split v space) token val s.current.pkg) [
      | err e ↦ err e
      | ok p ↦ ok (record s { current = record { pkg = p; files = s.current.files } })
    ]

-- The loop over the lines.
unfoldable pub installed_loop :
    List Bytes → ℕ → Progress → List InstalledPackage → Result (List InstalledPackage)
unfolding installed_field
installed_loop [] nr s packages = ok packages
installed_loop ([] ∷ ls) nr s packages =
    installed_loop ls nr nothing
      (if is_nil s.current.pkg.name then packages else packages ++ s.current ∷ [])
installed_loop ((token ∷ []) ∷ ls) nr s packages = err panicked
installed_loop ((token ∷ colon ∷ val) ∷ ls) nr s packages =
    if colon == b':'
    then elim (installed_field nr token val s) [
      | err e ↦ err e
      | ok s' ↦ installed_loop ls (suc nr) s' packages
    ]
    else err (no_colon nr)

-- `ParseInstalled` does not look at the error of the scanner.
unfoldable pub parse_installed : Bytes → Result (List InstalledPackage)
unfolding installed_loop
parse_installed s = installed_loop (scan max_token s).0 1 nothing []
