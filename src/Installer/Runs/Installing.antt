-- ===== src/Installer/Runs/Installing.antt =====
-- Runs of `InstallPackages`.
use mathlib.Core.List.{map}
use go_apk.Base.{true, false, List, [], ◌∷◌, Option, some, length, All, ◌≡◌, refl}
use go_apk.Base.Bytes.{Bytes, codes}
use go_apk.Base.Base64.{encode_base64, sextet_char}
use go_apk.Base.Decimal.{format, format_int, parse_int, parse_uint}
use go_apk.Base.Scanner.{drop_cr, raw_lines, tokens, scan, trim_left, trim_right, trim_space}
use go_apk.Database.{no_package, checksum_string, set_field, package_to_installed}
use go_apk.Database.Installed.{installed_field, installed_loop, parse_installed}
use go_apk.MemFs.{permissions, new_mem_fs}
use go_apk.Base.Maps.{delete}
use go_apk.MemFs.Entries.{remove, remove_entry}
use go_apk.MemFs.Files.{open_file, seek, add_i64}
use go_apk.Install.{Header, Reader, checksum_key, done}
use go_apk.Install.Entries.{
  Apk, is_linked_dir, install_dir, install_entry, install_loop, install_apk_files,
}
use go_apk.Install.Tests.{lib}
use go_apk.Installer.Records.{
  trim_slash, format_octal, perm_lines, checksum_line, file_lines, files_lines, write_entry,
  add_installed_package, get_installed, is_installed_package,
}
use go_apk.Installer.Sorting.{sort_tar_headers}
use go_apk.Installer.Control.{
  Archive, TarWriter, add_value, add_values, control_mapping, control_value, update_triggers,
  write_triggers, script_name, write_scripts, update_scripts_tar,
}
use go_apk.Installer.Packages.{
  Expanded, Installed, record_all, install_package, install_one, install_in_order, owned_files,
  fresh,
}
use go_apk.Install.Files.{
  creating, write_one_file, write_new, copy_n, limit, joined, write_chunks, checksum_from_header,
  decode_hex, hex_digit, with_sum, set_xattrs, finish_file, install_regular_file, as_exists,
  settle_conflict,
}
use go_apk.MemFs.Attributes.{set_xattr}
use go_apk.Installer.InitDb.{
  scripts_path, init_base, init_dir, init_file, init_device, each, init_entries,
}
use go_apk.Installer.Exclusive.{Exclusive, Taken, install_in_order-Exclusive}
use go_apk.Installer.Tests.{dir_header, file_header}
use go_apk.Installer.Runs.{program, unix}

abbrev tar_writer : TarWriter
tar_writer = record { encode = λ h b. ([], true); footer = [] }

abbrev archive : Archive
archive = record {
  entries = (record file_header { name = codes ".PKGINFO" }, some (codes "triggers = /bin")) ∷ [];
  broken = false;
}

abbrev reader : Reader
reader = record { chunks = []; fails = false }

abbrev summed : Header
summed = record file_header { pax_records = (checksum_key, codes "0aff") ∷ [] }

abbrev own : Header
own = record summed { name = codes "usr/b" }

abbrev expanded : Bytes → List (Header × Reader) → Expanded
expanded name files = record {
  package_data = some ((dir_header, reader) ∷ (summed, reader) ∷ files);
  broken = false;
  control = some (some archive);
  info = some (record no_package { name = name; origin = codes "os" });
}

-- Two packages of one origin with a file of the same name, which the second replaces; it has another
-- file too.
abbrev both : List (Bytes × Option Expanded)
both =
    (codes "os", some (expanded (codes "os") []))
    ∷ (codes "b", some (expanded (codes "b") ((own, reader) ∷ [])))
    ∷ []

-- The directory of the database, with the files in it.
abbrev based : Apk
based = record {
  fs = (init_entries unix false (codes "x86_64") new_mem_fs).0;
  installed_files = [];
}

unfolded : Unit {0}
unfolding program fresh install_in_order install_one install_package is_installed_package
    get_installed parse_installed installed_loop scan raw_lines tokens drop_cr update_scripts_tar
    write_scripts update_triggers write_triggers control_value control_mapping add_values add_value
    script_name trim_space trim_left trim_right seek add_i64 install_apk_files install_loop
    install_entry install_dir is_linked_dir set_xattrs install_regular_file as_exists
    settle_conflict remove remove_entry delete write_one_file write_new copy_n limit joined
    write_chunks checksum_from_header decode_hex hex_digit with_sum finish_file encode_base64
    sextet_char record_all add_installed_package write_entry files_lines file_lines perm_lines
    checksum_line trim_slash format_octal package_to_installed format format_int checksum_string
    sort_tar_headers installed_field set_field parse_int parse_uint init_entries init_base init_dir
    init_file init_device each set_xattr
unfolded = tt

-- A file is there from an earlier call.
abbrev prepared : Apk
prepared = record {
  fs = (open_file scripts_path creating (permissions 420) based.fs).0;
  installed_files = (codes "usr/old", record { id = 4; value = no_package }) ∷ [];
}

abbrev ran : Apk
ran = (install_in_order lib tar_writer 5 both prepared).0

abbrev listed : Header → Header
listed h = record h { pax_records = (checksum_key, codes "Q1Cv8=") ∷ [] }

abbrev installed : List Installed
installed =
    (
      record { id = 5; value = record no_package { name = codes "os"; origin = codes "os" } },
      dir_header ∷ listed summed ∷ [],
    )
    ∷ (
      record { id = 6; value = record no_package { name = codes "b"; origin = codes "os" } },
      dir_header ∷ listed summed ∷ listed own ∷ [],
    )
    ∷ []

runs_lem :
    install_in_order lib tar_writer (fresh prepared.installed_files) both prepared
    ≡ (ran, done installed)
unfolding unfolded
runs_lem = refl

install_in_order-Exclusive_example :
    Exclusive ran.installed_files installed
    × All (Taken prepared.installed_files ran.installed_files) installed
install_in_order-Exclusive_example =
    install_in_order-Exclusive lib tar_writer both prepared ran installed runs_lem

-- The file that both packages have is recorded for the second, which wrote it last.
recorded_tests :
    (map (λ x. length {A = Header} (owned_files ran.installed_files x.0 x.1)) installed
      ≡ 1 ∷ 3 ∷ [])
unfolding unfolded
recorded_tests = refl
