-- ===== src/Database/Laws.antt =====
-- pkg/apk/package.go and pkg/apk/installed.go: `ParseInstalled` reads what `PackageToInstalled`
-- prints.
use mathlib.Core.List.{append-nil, append_assoc}
use go_apk.Base.{ℕ, List, [], ◌∷◌, ◌++◌, ◌≡◌, ◌∙◌, refl, All, is_nil-false}
use go_apk.Base.Bytes.{Bytes}
use go_apk.Base.Scanner.{max_token, unlines, IsLine, scan-unlines}
use go_apk.Database.{Package, ok, checksum_string, package_to_installed}
use go_apk.Database.Installed.{InstalledPackage, Progress, nothing, installed_loop, parse_installed}
use go_apk.Database.Fields.{
  split-join-reread, IsPrintable, as_read, with_pkg, read_numbers, text_lines, replaces_lines,
  number_lines, checksum_lines, read_texts_lem, read_replaces_lem, read_numbers_lem,
  read_checksum_lem,
}

module _ (p : Package) (h : IsPrintable p) where
  lines_same :
      (r : List Bytes)
      → package_to_installed p ++ r
        ≡ text_lines p
          ++ (replaces_lines p.replaces ++ (number_lines p ++ (checksum_lines p.checksum ++ r)))
  unfolding package_to_installed checksum_string text_lines number_lines
  lines_same r =
      rw (append_assoc (replaces_lines p.replaces) (number_lines p ++ checksum_lines p.checksum) r)
        refl

  -- What the lines of a package are read as, before the empty line.
  abbrev pub read_lines : Package
  read_lines = record (read_numbers p) { checksum = p.checksum }

  -- The lines of one package.
  pub package_lines_lem :
      (ls : List Bytes) (nr : ℕ) (ps : List InstalledPackage)
      → (m : ℕ) × (installed_loop (package_to_installed p ++ ls) nr nothing ps
          ≡ installed_loop ls m (with_pkg read_lines) ps)
  package_lines_lem ls nr ps =
      let (m1, e1) =
        read_texts_lem p h
          (replaces_lines p.replaces ++ (number_lines p ++ (checksum_lines p.checksum ++ ls))) nr
          ps in
      let (m2, e2) =
        read_replaces_lem p h (number_lines p ++ (checksum_lines p.checksum ++ ls)) m1 ps in
      let (m3, e3) = read_numbers_lem p h (checksum_lines p.checksum ++ ls) m2 ps in
      let (m4, e4) = read_checksum_lem p h ls m3 ps in (m4, rw (lines_same ls) e1 ∙ e2 ∙ e3 ∙ e4)

  -- The empty line ends the package.
  pub blank_step :
      (ls : List Bytes) (m : ℕ) (ps : List InstalledPackage) (s : Progress)
      → s.current.pkg ≡ read_lines
      → installed_loop ([] ∷ ls) m s ps
        ≡ installed_loop ls m nothing
            (ps ++ record { pkg = as_read p; files = s.current.files } ∷ [])
  unfolding installed_loop
  blank_step ls m ps s e =
      rw (e, is_nil-false p.name h.named)
        (rw
          (
            split-join-reread p.dependencies h.plain_dependencies,
            split-join-reread p.provides h.plain_provides,
          )
          refl)

  -- The lines of one package, with the empty line behind them.
  read_package_lem :
      (ls : List Bytes) (nr : ℕ) (ps : List InstalledPackage)
      → (m : ℕ) × (installed_loop (package_to_installed p ++ [] ∷ ls) nr nothing ps
          ≡ installed_loop ls m nothing (ps ++ record { pkg = as_read p; files = [] } ∷ []))
  read_package_lem ls nr ps =
      let (m, e) = package_lines_lem ([] ∷ ls) nr ps in
      (m, e ∙ blank_step ls m ps (with_pkg read_lines) refl)

-- The packages' lines, with an empty line behind each.
unfoldable pub database_lines : List Package → List Bytes
database_lines [] = []
database_lines (p ∷ ps) = package_to_installed p ++ [] ∷ database_lines ps

abbrev pub all_read : List Package → List InstalledPackage
all_read [] = []
all_read (p ∷ ps) = record { pkg = as_read p; files = [] } ∷ all_read ps

read_packages :
    (ps : List Package) (nr : ℕ) (before : List InstalledPackage)
    → All IsPrintable ps
    → installed_loop (database_lines ps) nr nothing before ≡ ok (before ++ all_read ps)
unfolding database_lines
read_packages [] nr before _ = unfold installed_loop in rw (append-nil before) refl
read_packages (p ∷ ps) nr before (h, hs) =
    let (m, e) = read_package_lem p h (database_lines ps) nr before in
    e
    ∙ read_packages ps m (before ++ record { pkg = as_read p; files = [] } ∷ []) hs
    ∙ rw (append_assoc before (record { pkg = as_read p; files = [] } ∷ []) (all_read ps)) refl

-- Where every line that `PackageToInstalled` prints fits the scanner's buffer and has neither a
-- newline in it nor a carriage return at its end, `ParseInstalled` reads printable packages back,
-- each with an empty line behind it and without files. InstallIf comes back with the brackets that
-- are printed around it, and no dependencies as one dependency of the empty name.
pub parse_installed-package_to_installed :
    (ps : List Package)
    → All IsPrintable ps
    → All (IsLine max_token) (database_lines ps)
    → parse_installed (unlines (database_lines ps)) ≡ ok (all_read ps)
unfolding parse_installed
parse_installed-package_to_installed ps h lines =
    rw (scan-unlines max_token (database_lines ps) lines) (read_packages ps 1 [] h)
