-- ===== src/Installer/Runs.antt =====
-- Runs of `AddInstalledPackage` and `InitDB`.
pub mod Installing
use go_apk.Base.{true, false, List, [], ◌∷◌, none, some, ◌≡◌, refl, arith}
use go_apk.Base.Bytes.{codes, str_eq, str_ltb, split, join, has_prefix}
use go_apk.Base.Base64.{encode_base64, sextet_char}
use go_apk.World.{sort_strings}
use go_apk.Base.Decimal.{numeral, format, format_int, parse_int, parse_uint}
use go_apk.Base.Maps.{lookup, insert}
use go_apk.Base.Paths.{clean, clean_elements, join_path, split_path, dir, base, drop_slashes}
use go_apk.Base.Scanner.{
  drop_cr, raw_lines, tokens, scan, unlines, trim_left, trim_right, trim_space,
}
use go_apk.Database.{no_package, checksum_string, set_field, package_to_installed}
use go_apk.Database.Installed.{installed_field, installed_loop, parse_installed}
use go_apk.Database.Tests.{busybox, busybox-IsPrintable, IsLine-All}
use go_apk.MemFs.{permissions, MemFs, ok, new_mem_fs, max_links}
use go_apk.MemFs.Lookup.{child_of, target_path, resolve, walk, get_node_count_links, get_node, stat}
use go_apk.MemFs.Entries.{
  Unix, add_node, add_new, mkdir, mknod, with_children, child_or_dir, linked_node, descend,
  mkdir_loop, mkdir_all,
}
use go_apk.MemFs.Files.{
  open_entry, open_parent, open_step, open_target, open_node, new_mem_file, open_file, open_to_read,
  bytes_at, read, written, write_at, write, copy_all, write_file, seek, add_i64,
}
use go_apk.MemFs.Reach.{grows, by_mkdir_all, here, next, Reach-IsValid}
use go_apk.Install.{Header, checksum_key, done}
use go_apk.Install.Entries.{
  Apk, is_linked_dir, install_dir, install_entry, install_loop, install_apk_files,
}
use go_apk.Install.Tests.{lib}
use go_apk.Installer.Records.{
  installed_path, trim_slash, format_octal, perm_lines, checksum_line, file_lines, files_lines,
  appending, write_entry, add_installed_package, get_installed, is_installed_package,
}
use go_apk.Installer.Recorded.{Recorded, IsRecorded, recorded_lines, all_listed}
use go_apk.Installer.Append.{get_installed-add_installed_package}
use go_apk.Installer.Sorting.{sort_tar_headers}
use go_apk.Installer.Keys.{Network}
use go_apk.Installer.InitLaws.{get_node-init_db, init_db-tmp}
use go_apk.Installer.Control.{
  Archive, TarWriter, add_value, add_values, control_mapping, control_value, update_triggers,
  write_triggers, script_name, write_scripts, update_scripts_tar,
}
use go_apk.Installer.Packages.{
  Expanded, Installed, record_all, install_package, install_one, install_in_order, install_packages,
}
use go_apk.Install.Files.{
  creating, write_one_file, write_new, copy_n, limit, joined, write_chunks, checksum_from_header,
  decode_hex, hex_digit, with_sum, set_xattrs, finish_file, install_regular_file,
}
use go_apk.MemFs.Attributes.{set_xattr}
use go_apk.MemFs.Valid.{IsValid}
use go_apk.Installer.InitDb.{
  scripts_path, InitError, wrong_permissions, finished, stopped, init_base, init_dir, init_file,
  init_device, each, init_entries, init_db,
}
use go_apk.Installer.Tests.{sorted_pair, dir_header, file_header}

abbrev made : MemFs
made = (mkdir_all (codes "lib/apk/db") (permissions 493) new_mem_fs).0

abbrev opened : MemFs
opened = (open_node max_links installed_path appending (permissions 420) made).0

abbrev recorded : Recorded
recorded = record {
  pkg = busybox;
  files = dir_header ∷ file_header ∷ [];
  lines = codes "F:usr" ∷ codes "R:os" ∷ [];
}

pub program : Unit {0}
unfolding new_mem_fs get_node get_node_count_links walk resolve target_path child_of stat add_node
    add_new mkdir mknod with_children child_or_dir linked_node descend mkdir_loop mkdir_all
    open_entry open_parent open_step open_target open_node new_mem_file open_file open_to_read
    bytes_at read written write_at write copy_all write_file lookup insert clean clean_elements
    join_path split_path dir base drop_slashes str_eq split join has_prefix
program = tt

opens_lem : open_node max_links installed_path appending (permissions 420) made ≡ (opened, ok 4)
unfolding program
opens_lem = refl

empty_lem : (opened.node 4).contents ≡ unlines (recorded_lines [])
unfolding program unlines recorded_lines
empty_lem = refl

lines_lem : files_lines recorded.files ≡ some recorded.lines
unfolding files_lines file_lines perm_lines checksum_line trim_slash base lookup split_path
    drop_slashes
lines_lem = refl

recorded-IsRecorded : IsRecorded recorded
recorded-IsRecorded = record {
  printable = busybox-IsPrintable;
  owned = (
    record {
      user = 0;
      user_is = refl;
      user_fits = omega arith;
      group = 0;
      group_is = refl;
      group_fits = omega arith;
    },
    (
      record {
        user = 0;
        user_is = refl;
        user_fits = omega arith;
        group = 0;
        group_is = refl;
        group_fits = omega arith;
      },
      tt,
    ),
  );
  printed = lines_lem;
}

get_installed-add_installed_package_example :
    let m = add_installed_package 9 busybox (file_header ∷ dir_header ∷ []) made in
    (m.1 ≡ done tt) × (get_installed m.0 ≡ done (all_listed (recorded ∷ [])))
get_installed-add_installed_package_example =
    get_installed-add_installed_package 9 (file_header ∷ dir_header ∷ []) [] recorded made opened 4
      (Reach-IsValid (next here (grows (by_mkdir_all (codes "lib/apk/db") (permissions 493) refl))))
      opens_lem empty_lem sorted_pair tt recorded-IsRecorded
      (IsLine-All (recorded_lines (recorded ∷ [])) (
        unfold recorded_lines package_to_installed drop_cr str_eq format format_int encode_base64
          sextet_char join in
        refl))

abbrev pub unix : Unix
unix = record { major = λ d. d; minor = λ d. 0; mkdev = λ a b. a }

abbrev net : Network
net = record { releases = none; get = λ u. none; unescape = λ s. some s; now = 0 }

-- A new file system is initialised, and again it is not.
init_tests :
    ((init_db unix net false [] (codes "x86_64") [] new_mem_fs).1 ≡ finished)
    × ((init_db unix net false []
          (codes "x86_64")
          []
          (init_db unix net false [] (codes "x86_64") [] new_mem_fs).0).1
        ≡ stopped (wrong_permissions (codes "/tmp")))
unfolding program init_db init_entries init_base init_dir init_file init_device each
init_tests = (refl, refl)

abbrev with_tmp : MemFs
with_tmp = (mkdir_all (codes "tmp") (permissions 511) new_mem_fs).0

with_tmp-IsValid : IsValid with_tmp
with_tmp-IsValid =
    Reach-IsValid (next here (grows (by_mkdir_all (codes "tmp") (permissions 511) refl)))

tmp_lem : get_node with_tmp (codes "/tmp") ≡ ok 1
unfolding program
tmp_lem = refl

get_node-init_db_example :
    let s = (init_db unix net false [] (codes "x86_64") [] with_tmp).0 in
    IsValid s × (get_node s (codes "/tmp") ≡ ok 1)
get_node-init_db_example =
    get_node-init_db unix net false [] (codes "x86_64") [] with_tmp (codes "/tmp") 1
      with_tmp-IsValid tmp_lem

stat_lem : stat with_tmp (codes "/tmp") ≡ ok (with_tmp.node 1)
unfolding program
stat_lem = refl

init_db-tmp_example :
    (e : InitError) × (init_db unix net false [] (codes "x86_64") [] with_tmp
      ≡ (with_tmp, stopped e))
init_db-tmp_example =
    init_db-tmp unix net false [] (codes "x86_64") [] with_tmp (with_tmp.node 1) stat_lem
