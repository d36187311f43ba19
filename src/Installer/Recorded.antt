-- ===== src/Installer/Recorded.antt =====
-- pkg/apk/installed.go: `GetInstalled` reads what `AddInstalledPackage` wrote.
use mathlib.Core.List.{append-nil, append_assoc}
use go_apk.Base.{ℕ, false, List, [], ◌∷◌, ◌++◌, none, some, ◌≡◌, ◌∙◌, refl, is_nil, All}
use go_apk.Base.Bytes.{Bytes, join}
use go_apk.Base.Scanner.{newline, max_token, unlines, IsLine, scan-unlines}
use go_apk.Database.{Package, package_to_installed}
use go_apk.Database
use go_apk.Database.Installed.{InstalledPackage, nothing, installed_loop, parse_installed}
use go_apk.Database.Fields.{IsPrintable, as_read}
use go_apk.Database.Laws.{package_lines_lem, blank_step, read_lines}
use go_apk.Install.{Header}
use go_apk.Installer.Records.{files_lines, entry_text}
use go_apk.Installer.Perms.{IsOwned, read_files}
use go_apk.Installer.Listed.{at, files_lines_lem}

-- A package with its files in the order of the list, and the lines of these.
pub record Recorded : Type 0 where
  pub pkg : Package
  pub files : List Header
  pub lines : List Bytes

pub record IsRecorded (r : Recorded) : Type 0 where
  pub printable : IsPrintable r.pkg
  pub owned : All IsOwned r.files
  pub printed : files_lines r.files ≡ some r.lines

-- The lines of the database, and what they are read as.
unfoldable pub recorded_lines : List Recorded → List Bytes
recorded_lines [] = []
recorded_lines (r ∷ rs) = package_to_installed r.pkg ++ (r.lines ++ [] ∷ recorded_lines rs)

abbrev pub as_listed : Recorded → InstalledPackage
as_listed r = record { pkg = as_read r.pkg; files = read_files none r.files }

abbrev pub all_listed : List Recorded → List InstalledPackage
all_listed [] = []
all_listed (r ∷ rs) = as_listed r ∷ all_listed rs

read_recorded :
    (rs : List Recorded) (nr : ℕ) (before : List InstalledPackage)
    → All IsRecorded rs
    → installed_loop (recorded_lines rs) nr nothing before ≡ Database.ok (before ++ all_listed rs)
unfolding recorded_lines
read_recorded [] nr before _ = unfold installed_loop in rw (append-nil before) refl
read_recorded (r ∷ rs) nr before (h, hs) =
    let ls = recorded_lines rs in
    let q = read_lines r.pkg h.printable in
    let (m, e) = package_lines_lem r.pkg h.printable (r.lines ++ [] ∷ ls) nr before in
    let (d, x) = files_lines_lem q before r.files r.lines [] none none h.owned h.printed in
    let (n, f) = x.runs ([] ∷ ls) m in
    e
    ∙ f
    ∙ blank_step r.pkg h.printable ls n before
        (at q before (read_files none r.files) x.last_dir x.last_file) refl
    ∙ read_recorded rs n (before ++ as_listed r ∷ []) hs
    ∙ rw (append_assoc before (as_listed r ∷ []) (all_listed rs)) refl

pub parse_recorded :
    (rs : List Recorded)
    → All IsRecorded rs
    → All (IsLine max_token) (recorded_lines rs)
    → parse_installed (unlines (recorded_lines rs)) ≡ Database.ok (all_listed rs)
unfolding parse_installed
parse_recorded rs h lines =
    rw (scan-unlines max_token (recorded_lines rs) lines) (read_recorded rs 1 [] h)

recorded_lines-append :
    (rs : List Recorded) (r : Recorded)
    → recorded_lines (rs ++ r ∷ [])
      ≡ recorded_lines rs ++ ((package_to_installed r.pkg ++ r.lines) ++ [] ∷ [])
unfolding recorded_lines
recorded_lines-append [] r = rw (append_assoc (package_to_installed r.pkg) r.lines ([] ∷ [])) refl
recorded_lines-append (s ∷ rs) r =
    rw
      (
        recorded_lines-append rs r,
        append_assoc (package_to_installed s.pkg) (s.lines ++ [] ∷ recorded_lines rs) _,
        append_assoc s.lines ([] ∷ recorded_lines rs) _,
      )
      refl

unlines-append : (k l : List Bytes) → unlines (k ++ l) ≡ unlines k ++ unlines l
unfolding unlines
unlines-append [] l = refl
unlines-append (x ∷ k) l =
    rw (unlines-append k l, append_assoc x (newline ∷ unlines k) (unlines l)) refl

unlines-entry_text :
    (x : Bytes) (l : List Bytes) → unlines ((x ∷ l) ++ [] ∷ []) ≡ entry_text (x ∷ l)
unfolding unlines join
unlines-entry_text x [] = refl
unlines-entry_text x (y ∷ l) =
    rw
      (
        unlines-entry_text y l,
        append_assoc x (newline ∷ join (y ∷ l) newline) (newline ∷ newline ∷ []),
      )
      refl

unlines-entry : (l : List Bytes) → is_nil l ≡ false → unlines (l ++ [] ∷ []) ≡ entry_text l
unlines-entry [] h = absurd (cc h)
unlines-entry (x ∷ l) h = unlines-entry_text x l

some_line : (r : Recorded) → is_nil (package_to_installed r.pkg ++ r.lines) ≡ false
unfolding package_to_installed
some_line r = refl

-- A package that is recorded is appended to the text.
pub recorded_text :
    (rs : List Recorded) (r : Recorded)
    → unlines (recorded_lines rs) ++ entry_text (package_to_installed r.pkg ++ r.lines)
      ≡ unlines (recorded_lines (rs ++ r ∷ []))
recorded_text rs r =
    let l = package_to_installed r.pkg ++ r.lines in
    rw
      (
        recorded_lines-append rs r,
        unlines-append (recorded_lines rs) (l ++ [] ∷ []),
        unlines-entry l (some_line r),
      )
      refl
