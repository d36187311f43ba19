-- ===== src/Installer/Packages.antt =====
-- pkg/apk/implementation.go: `installPackage`, `InstallPackages` and the check of conflicts in
-- `FixateWorld`.
use Prim.Native.Nat.{suc}
use go_apk.Base.{
  ℕ, Bool, true, false, List, [], ◌∷◌, Option, none, some, ◌==◌, ltb, keep, if◌then◌else◌,
}
use go_apk.Base.Bytes.{Bytes}
use go_apk.Base.Maps.{Map, lookup}
use go_apk.Database.{Package}
use go_apk.Install.{
  PackageRef, Header, Reader, Library, unreadable, conflict, done, failed, Run, chain, ◌>=>◌,
}
use go_apk.Install.Entries.{Apk, on_files, install_apk_files}
use go_apk.Installer.Control.{Archive, TarWriter, update_scripts_tar, update_triggers}
use go_apk.Installer.Records.{is_installed_package, add_installed_package}

-- `expandapk.APKExpanded`: its data and its control archive (`none` cannot be opened), and what
-- `packageInfo` reads of .PKGINFO.
pub record Expanded : Type 0 where
  pub package_data : Option (List (Header × Reader))
  pub broken : Bool
  pub control : Option (Option Archive)
  pub info : Option Package

-- `installPackage`, where the file system is no `WriteHeaderer`.
unfoldable pub install_package : Library → TarWriter → PackageRef → Expanded → Run Apk (List Header)
install_package lib tw pkg exp apk = elim exp.package_data [
  | none ↦ (apk, failed unreadable)
  | some entries ↦ chain (install_apk_files lib pkg exp.broken entries apk) λ files apk.
      elim exp.control [
        | none ↦ (apk, failed unreadable)
        | some control ↦
            chain (on_files (update_scripts_tar tw pkg.value control) apk)
              λ u. on_files (update_triggers pkg.value control) >=> λ v apk. (apk, done files)
      ]
]

-- A package that was installed, with the headers of its files.
abbrev pub Installed : Type 0
Installed = PackageRef × List Header

-- One package: `none` is that it is there already. Its number stands for its pointer.
unfoldable pub install_one : Library → TarWriter → ℕ → Bytes → Expanded → Run Apk (Option Installed)
unfolding install_package
install_one lib tw i name exp apk = elim (is_installed_package name apk.fs) [
  | failed e ↦ (apk, failed e)
  | done true ↦ (apk, done none)
  | done false ↦ elim exp.info [
    | none ↦ (apk, failed unreadable)
    | some info ↦
        let pkg : PackageRef = record { id = i; value = info } in
        chain (install_package lib tw pkg exp apk) λ files apk. (apk, done (some (pkg, files)))
  ]
]

abbrev pub add_if : Option Installed → List Installed → List Installed
add_if none l = l
add_if (some x) l = x ∷ l

-- The goroutine that installs the packages in order. A package that is not expanded, since that
-- failed or the context was cancelled, is `none`: the others may still be expanded after it.
unfoldable pub install_in_order :
    Library → TarWriter → ℕ → List (Bytes × Option Expanded) → Run Apk (List Installed)
unfolding install_one
install_in_order lib tw i [] apk = (apk, done [])
install_in_order lib tw i ((name, none) ∷ ps) apk = (apk, failed unreadable)
install_in_order lib tw i ((name, some exp) ∷ ps) apk =
    chain (install_one lib tw i name exp apk) λ installed.
      install_in_order lib tw (suc i) ps >=> λ rest apk. (apk, done (add_if installed rest))

-- Whether a header is kept in the list of files: its owner is none, as of a directory, or the package.
abbrev pub is_owned_by : Map PackageRef → PackageRef → Header → Bool
is_owned_by owners pkg h = elim (lookup h.name owners) [ none ↦ true | some o ↦ o.id == pkg.id ]

abbrev pub owned_files : Map PackageRef → PackageRef → List Header → List Header
owned_files owners pkg files = keep (is_owned_by owners pkg) files

-- The list of installed packages is written: `depth` is that of `sort_tar_headers`.
unfoldable pub record_all : ℕ → List Installed → Run Apk (Unit {0})
record_all depth [] apk = (apk, done tt)
record_all depth ((pkg, files) ∷ ps) apk =
    chain
      (on_files (add_installed_package depth pkg.value (owned_files apk.installed_files pkg files))
        apk)
      λ u. record_all depth ps

-- A number above those of all packages that own files: `new(Package)` in `packageInfo` gives a pointer
-- that is none of theirs.
unfoldable pub fresh : Map PackageRef → ℕ
fresh [] = 0
fresh ((name, o) ∷ owners) = let rest = fresh owners in if ltb o.id rest then rest else suc o.id

-- `InstallPackages`.
unfoldable pub install_packages :
    Library → TarWriter → ℕ → List (Bytes × Option Expanded) → Run Apk (Unit {0})
unfolding install_in_order record_all fresh
install_packages lib tw depth ps apk =
    (install_in_order lib tw (fresh apk.installed_files) ps >=> record_all depth) apk

-- The check of `FixateWorld` that no package is installed that the others conflict with.
unfoldable pub check_conflicts : List Bytes → Run Apk (Unit {0})
check_conflicts [] apk = (apk, done tt)
check_conflicts (name ∷ names) apk =
    let rest = check_conflicts names apk in
    elim (is_installed_package name apk.fs) [
      | failed e ↦ (apk, failed e)
      | done true ↦ (apk, failed conflict)
      | done false ↦ rest
    ]

-- `FixateWorld` behind `ResolveWorld`.
unfoldable pub fixate_world :
    Library → TarWriter → ℕ → List Bytes → List (Bytes × Option Expanded) → Run Apk (Unit {0})
unfolding check_conflicts install_packages
fixate_world lib tw depth conflicts ps =
    check_conflicts conflicts >=> λ u. install_packages lib tw depth ps
