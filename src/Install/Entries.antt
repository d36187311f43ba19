-- ===== src/Install/Entries.antt =====
-- pkg/apk/install.go: `installAPKFiles` and `lazilyInstallAPKFiles`.
use Prim.Native.Nat.{◌%◌}
use mathlib.Core.Bool.{◌&&◌, ◌||◌, not}
use go_apk.Base.{Bool, true, false, List, [], ◌∷◌, ◌++◌, Option, none, some, ◌==◌, if◌then◌else◌}
use go_apk.Base.Bytes.{Bytes, str_eq}
use go_apk.Base.Maps.{Map, insert}
use go_apk.MemFs.{permissions, MemFs, ok, err}
use go_apk.MemFs.Lookup.{stat}
use go_apk.MemFs.Entries.{mkdir_all, symlink, readlink, link}
use go_apk.Install.{
  PackageRef, TypeFlag, dir_type, reg_type, symlink_type, link_type, other_type, Header, Reader,
  Library, unreadable, unsupported, no_name, Outcome, done, failed, Run, chain, ◌>=>◌, lift,
}
use go_apk.Install.Files.{set_xattrs, install_regular_file}

-- The fields of `APK` that an installation changes: the file system, and `installedFiles`.
pub record Apk : Type 0 where
  pub fs : MemFs
  pub installed_files : Map PackageRef

-- A step on the file system alone.
abbrev pub on_files : {A : Type 0} → Run MemFs A → Run Apk A
on_files m apk = let r = m apk.fs in (record apk { fs = r.0 }, r.1)

-- A directory that is there as a link to one.
unfoldable pub is_linked_dir : MemFs → Bytes → Bool
is_linked_dir fs name = elim (stat fs name) [
  | err e ↦ false
  | ok n ↦ n.mode.is_symlink && elim (readlink fs name) [
    | err e ↦ false
    | ok target ↦ elim (stat fs target) [ err e ↦ false | ok m ↦ m.dir ]
  ]
]

-- A directory; 0o777 is 511.
unfoldable pub install_dir : Library → Header → Run MemFs (Unit {0})
install_dir lib h fs =
    if is_linked_dir fs h.name
    then (fs, done tt)
    else chain (lift (mkdir_all h.name (permissions (h.file_mode.bits % 512)) fs))
        (λ u. set_xattrs h.name (lib.visit h.pax_records))

-- A symbolic link, unless it is there: whether it was made.
unfoldable pub install_symlink : Header → Run MemFs Bool
install_symlink h fs =
    let make = chain (lift (symlink h.link_name h.name fs)) (λ u s. (s, done true)) in
    elim (readlink fs h.name) [
      | err e ↦ make
      | ok target ↦ if str_eq target h.link_name then (fs, done false) else make
    ]

-- The file's owner is noted if it was written.
abbrev pub note_owner : PackageRef → Header × Bool → Run Apk (Option Header)
note_owner pkg (h, false) apk = (apk, done (some h))
note_owner pkg (h, true) apk =
    (record apk { installed_files = insert h.name pkg apk.installed_files }, done (some h))

-- One entry: the header to list, if there is one.
abbrev pub install_typed :
    TypeFlag → Library → PackageRef → Header → Reader → Run Apk (Option Header)
install_typed dir_type lib pkg h r = on_files (install_dir lib h) >=> λ u apk. (apk, done (some h))
install_typed reg_type lib pkg h r = λ apk.
    chain (on_files (install_regular_file lib apk.installed_files h r pkg) apk) (note_owner pkg)
install_typed symlink_type lib pkg h r =
    on_files (install_symlink h) >=> λ made apk. (apk, done (if made then some h else none))
install_typed link_type lib pkg h r =
    on_files (λ fs. lift (link h.link_name h.name fs)) >=> λ u apk. (apk, done (some h))
install_typed other_type lib pkg h r = λ apk. (apk, failed unsupported)

unfoldable pub install_entry : Library → PackageRef → Header → Reader → Run Apk (Option Header)
install_entry lib pkg h r = install_typed h.type_flag lib pkg h r

abbrev pub has_slash : Bytes → Bool
has_slash [] = false
has_slash (c ∷ s) = c == b'/' || has_slash s

-- Whether an entry is a hidden file before the data; `none` is the index out of range.
abbrev pub is_hidden : Bytes → Option Bool
is_hidden [] = none
is_hidden (c ∷ s) = some (c == b'.' && not (has_slash (c ∷ s)))

abbrev pub skips : Bool → Bytes → Option Bool
skips true name = some false
skips false name = is_hidden name

abbrev pub append_listed : List Header → Option Header → List Header
append_listed files none = files
append_listed files (some h) = files ++ h ∷ []

-- The loop over the archive: `broken` is that an error follows the entries, in place of the end.
unfoldable pub install_loop :
    Library
    → PackageRef
    → Bool
    → Bool
    → List (Header × Reader)
    → List Header
    → Run Apk (List Header)
install_loop lib pkg broken started [] files apk =
    if broken then (apk, failed unreadable) else (apk, done files)
install_loop lib pkg broken started ((h, r) ∷ entries) files apk = elim (skips started h.name) [
  | none ↦ (apk, failed no_name)
  | some true ↦ install_loop lib pkg broken started entries files apk
  | some false ↦
      chain (install_entry lib pkg h r apk)
        λ listed. install_loop lib pkg broken true entries (append_listed files listed)
]

-- `installAPKFiles`; that no temporary directory can be made is left out.
unfoldable pub install_apk_files :
    Library → PackageRef → Bool → List (Header × Reader) → Run Apk (List Header)
unfolding install_loop
install_apk_files lib pkg broken entries = install_loop lib pkg broken false entries []

-- `lazilyInstallAPKFiles`: `write_header` is the method of the `WriteHeaderer`, on its own state.
module _ {S : Type 0} (write_header : Header → PackageRef → Run S Bool) where
  abbrev pub note_written : PackageRef → Header → Bool → Run (S × Map PackageRef) (Unit {0})
  note_written pkg h installed (s, owners) =
      elim h.type_flag as (λ t. (S × Map PackageRef) × Outcome (Unit {0})) [
        | reg_type ↦ (if installed then (s, insert h.name pkg owners) else (s, owners), done tt)
        | dir_type ↦ ((s, owners), done tt)
        | symlink_type ↦ ((s, owners), done tt)
        | link_type ↦ ((s, owners), done tt)
        | other_type ↦ ((s, owners), done tt)
      ]

  abbrev pub write_entry : PackageRef → Header → Run (S × Map PackageRef) (Unit {0})
  write_entry pkg h (s, owners) =
      let r = write_header h pkg s in chain ((r.0, owners), r.1) (note_written pkg h)

  unfoldable pub lazily_install :
      PackageRef → Bool → List Header → List Header → Run (S × Map PackageRef) (List Header)
  lazily_install pkg started [] files state = (state, done files)
  lazily_install pkg started (h ∷ headers) files state = elim (skips started h.name) [
    | none ↦ (state, failed no_name)
    | some true ↦ lazily_install pkg started headers files state
    | some false ↦
        chain (write_entry pkg h state) λ u. lazily_install pkg true headers (files ++ h ∷ [])
  ]
