-- ===== src/Installer/Append.antt =====
-- pkg/apk/installed.go: the file that `AddInstalledPackage` appends to.
use Prim.Native.Nat.{suc}
use go_apk.Base.{
  ℕ, false, List, [], ◌∷◌, ◌++◌, some, ◌≡◌, ◌∙◌, refl, ap, arith, is_nil, length, All, All-append,
}
use go_apk.Base.Bytes.{Bytes, join}
use go_apk.Base.Scanner.{newline, max_token, unlines, IsLine}
use go_apk.Database
use go_apk.Database.{package_to_installed}
use go_apk.Database.Installed.{InstalledPackage, parse_installed}
use go_apk.MemFs.{permissions, NodeId, MemFs, ok, set_node, max_links}
use go_apk.MemFs.Files.{read_only, open_node, MemFile, new_mem_file, open_file, copy_all}
use go_apk.MemFs.Valid.{IsValid, Grown, set_node-Grown}
use go_apk.MemFs.Opening.{open_node_lem}
use go_apk.MemFs.Contents.{at, open_opened, copy_all_lem}
use go_apk.Install.{Header, done, lift}
use go_apk.Install.Files.{rounds_for}
use go_apk.Install.Contents.{opened_at, write_end}
use go_apk.Installer.Sorting.{sort_tar_headers}
use go_apk.Installer.Records.{
  installed_path, appending, entry_text, files_lines, write_entry, add_installed_package,
  read_opened, get_installed,
}
use go_apk.Installer.Recorded.{
  Recorded, IsRecorded, recorded_lines, all_listed, parse_recorded, recorded_text,
}

append-some : (s t : Bytes) → is_nil t ≡ false → is_nil (s ++ t) ≡ false
append-some [] t h = h
append-some (c ∷ s) t h = refl

read_opened_lem :
    (t : MemFs) (f : MemFile) (b : Bytes)
    → copy_all (rounds_for t f) t f [] ≡ some (ok b)
    → read_opened (t, done f) ≡ done b
read_opened_lem t f b e = rw (e, read_opened) refl

-- The database is read where its file can be opened.
pub get_installed_lem :
    (t : MemFs) (c : NodeId) (ps : List InstalledPackage)
    → open_node max_links installed_path read_only (permissions 420) t ≡ (t, ok c)
    → parse_installed (t.node c).contents ≡ Database.ok ps
    → get_installed t ≡ done ps
unfolding get_installed
get_installed_lem t c ps opens parsed =
    let b = (t.node c).contents in
    let read = copy_all_lem (suc (length b)) t c 0 [] (omega arith) (omega arith) in
    let whole : read_opened (t, done (at c 0)) ≡ done b = read_opened_lem t (at c 0) b read in
    let opened = ap (λ m. read_opened (lift m)) (open_opened t installed_path c opens) ∙ whole in
    rw (opened, get_installed) (rw (parsed, get_installed) refl)

open_append :
    (fs s : MemFs) (c : NodeId)
    → open_node max_links installed_path appending (permissions 420) fs ≡ (s, ok c)
    → open_file installed_path appending (permissions 420) fs
      ≡ (s, ok (opened_at appending c (length (s.node c).contents)))
unfolding open_file new_mem_file
open_append fs s c e = rw e refl

-- Where the file is opened, the lines of the package are written at its end.
add_installed_package_lem :
    (depth : ℕ) (files : List Header) (r : Recorded) (fs s : MemFs) (c : NodeId) (old : Bytes)
    → open_node max_links installed_path appending (permissions 420) fs ≡ (s, ok c)
    → (s.node c).contents ≡ old
    → sort_tar_headers depth files ≡ some r.files
    → files_lines r.files ≡ some r.lines
    → add_installed_package depth r.pkg files fs ≡ (
      set_node s c (record (s.node c) {
        contents = old ++ entry_text (package_to_installed r.pkg ++ r.lines);
      }),
      done tt,
    )
unfolding add_installed_package write_entry
add_installed_package_lem depth files r fs s c old opens e sorted printed =
    let text = entry_text (package_to_installed r.pkg ++ r.lines) in
    let some_text : is_nil text ≡ false =
      append-some (join (package_to_installed r.pkg ++ r.lines) newline) (newline ∷ newline ∷ [])
        refl in
    rw (open_append fs s c opens, sorted, add_installed_package)
      (rw (printed, write_entry) (rw (e, write_end appending s c old text refl e some_text) refl))

-- Where the file can be opened and has the lines of packages that were recorded, their files with
-- owners that fit `int`, and the headers are sorted, `AddInstalledPackage` succeeds, and
-- `GetInstalled` then returns those packages and the new one, each with the paths of its files in
-- that order: a directory's own, and a file's last element joined to the directory listed before it.
pub get_installed-add_installed_package :
    (depth : ℕ) (files : List Header) (rs : List Recorded) (r : Recorded) (fs s : MemFs)
    (c : NodeId)
    → IsValid fs
    → open_node max_links installed_path appending (permissions 420) fs ≡ (s, ok c)
    → (s.node c).contents ≡ unlines (recorded_lines rs)
    → sort_tar_headers depth files ≡ some r.files
    → All IsRecorded rs
    → IsRecorded r
    → All (IsLine max_token) (recorded_lines (rs ++ r ∷ []))
    → let m = add_installed_package depth r.pkg files fs in
      (m.1 ≡ done tt) × (get_installed m.0 ≡ done (all_listed (rs ++ r ∷ [])))
get_installed-add_installed_package depth files rs r fs s c v opens old sorted hs h lines =
    let (grown, again) =
      open_node_lem max_links installed_path appending read_only (permissions 420) (permissions 420)
        fs v in
    let gs : Grown fs s = rw opens at grown in
    let text = unlines (recorded_lines rs) ++ entry_text (package_to_installed r.pkg ++ r.lines) in
    let t = set_node s c (record (s.node c) { contents = text }) in
    let g : Grown s t =
      set_node-Grown s c (record (s.node c) { contents = text }) gs.valid refl refl refl refl in
    let e =
      add_installed_package_lem depth files r fs s c (unlines (recorded_lines rs)) opens old sorted
        h.printed in
    let opened = (rw opens at again) c refl t g.extends in
    let read : (t.node c).contents ≡ unlines (recorded_lines (rs ++ r ∷ [])) =
      (let same : (t.node c).contents ≡ text = ground arith in same ∙ recorded_text rs r) in
    rw e (
      refl,
      get_installed_lem t c (all_listed (rs ++ r ∷ [])) opened (
          rw read
            (parse_recorded (rs ++ r ∷ []) (All-append IsRecorded rs (r ∷ []) hs (h, tt)) lines)),
    )
