-- ===== src/Install/Tests.antt =====
-- Runs of an installation.
use go_apk.Base.{false, List, [], ◌∷◌, some, ◌≡◌, ◌⊎◌, refl, arith, length}
use go_apk.Base.Bytes.{codes, str_eq, split, join, has_prefix}
use go_apk.Base.Base64.{
  decode_base64, decode_quanta, decode_quantum, sextet, encode_base64, sextet_char,
}
use go_apk.Base.Decimal.{pos}
use go_apk.Base.Maps.{Map, lookup, insert, delete}
use go_apk.Base.Paths.{clean, clean_elements, join_path, split_path, dir, base, drop_slashes}
use go_apk.Database.{no_package}
use go_apk.MemFs.{MemFs, not_exist, ok, err, permissions, new_mem_fs, max_links}
use go_apk.MemFs.Lookup.{child_of, target_path, resolve, walk, get_node_count_links, get_node, stat}
use go_apk.MemFs.Entries.{
  add_node, add_new, mkdir, symlink, readlink, link_node, link, remove_entry, remove, with_children,
  child_or_dir, linked_node, descend, mkdir_loop, mkdir_all,
}
use go_apk.MemFs.Attributes.{set_xattr}
use go_apk.MemFs.Files.{
  open_entry, open_parent, open_step, open_target, open_node, new_mem_file, open_file, open_to_read,
  bytes_at, read, written, write_at, write, copy_all, read_file,
}
use go_apk.MemFs.Valid.{IsValid}
use go_apk.MemFs.Reach.{grows, by_mkdir_all, here, next, Reach-IsValid}
use go_apk.Install.{
  PackageRef, dir_type, reg_type, Header, Reader, Library, different, done, failed, checksum_key,
}
use go_apk.Install.Files.{
  creating, limit, joined, write_chunks, copy_n, write_new, write_one_file, hex_digit, decode_hex,
  checksum_from_header, with_sum, with_checksum, set_xattrs, finish_file, as_exists,
  settle_conflict, install_regular_file,
}
use go_apk.Install.Entries.{
  Apk, is_linked_dir, install_dir, install_symlink, install_entry, install_loop, install_apk_files,
}
use go_apk.Install.Conflicts.{IsThere, MayReplace, Untouched, install_regular_file-MayReplace}
use go_apk.Install.Contents.{read_file-install_regular_file}

-- What the runs compute with.
program : Unit {0}
unfolding new_mem_fs get_node get_node_count_links walk resolve target_path child_of stat add_node
    add_new mkdir symlink readlink link_node link remove_entry remove with_children child_or_dir
    linked_node descend mkdir_loop mkdir_all set_xattr open_entry open_parent open_step open_target
    open_node new_mem_file open_file open_to_read bytes_at read written write_at write copy_all
    read_file lookup insert delete clean clean_elements join_path split_path dir base drop_slashes
    str_eq split join has_prefix limit joined write_chunks copy_n write_new write_one_file hex_digit
    decode_hex checksum_from_header with_sum set_xattrs finish_file as_exists settle_conflict
    install_regular_file is_linked_dir install_dir install_symlink install_entry install_loop
    install_apk_files decode_base64 decode_quanta decode_quantum sextet encode_base64 sextet_char
program = tt

abbrev pub lib : Library
lib = record { sha1 = λ s. s; temp_file = λ s. some (s ∷ []); visit = λ m. m }

abbrev header : Header
header = record {
  name = codes "usr/os";
  type_flag = reg_type;
  link_name = [];
  size = 5;
  mode = 420;
  file_mode = permissions 420;
  uid = pos 0;
  gid = pos 0;
  pax_records = (checksum_key, codes "0aff") ∷ [];
}

abbrev dir_header : Header
dir_header = record header { name = codes "usr/"; type_flag = dir_type; size = 0; pax_records = [] }

abbrev reader : Reader
reader = record { chunks = codes "he" ∷ codes "llo" ∷ []; fails = false }

abbrev os_package : PackageRef
os_package = record { id = 0; value = record no_package { name = codes "os"; origin = codes "os" } }

abbrev other_package : PackageRef
other_package = record {
  id = 1;
  value = record no_package { name = codes "fork"; origin = codes "fork" };
}

abbrev made : MemFs
made = (mkdir_all (codes "usr/") (permissions 493) new_mem_fs).0

made-IsValid : IsValid made
made-IsValid =
    Reach-IsValid (next here (grows (by_mkdir_all (codes "usr/") (permissions 493) refl)))

abbrev installed : MemFs
installed = (install_regular_file lib [] header reader os_package made).0

abbrev owners : Map PackageRef
owners = (header.name, os_package) ∷ []

is_there : IsThere installed header.name 2
unfolding program
is_there = record { info = installed.node 2; stat_ok = refl; opens = refl }

sum_lem : checksum_from_header header ≡ done (some (10 ∷ 255 ∷ []))
unfolding program
sum_lem = refl

with_lem : with_sum lib reader (some (10 ∷ 255 ∷ [])) ≡ done (10 ∷ 255 ∷ [], reader)
unfolding with_sum
with_lem = refl

install_regular_file-MayReplace_example :
    MayReplace owners header.name other_package
      (10 ∷ 255 ∷ [])
      (lib.sha1 (installed.node 2).contents)
    ⊎ Untouched installed (install_regular_file lib owners header reader other_package installed)
install_regular_file-MayReplace_example =
    install_regular_file-MayReplace lib owners header reader reader other_package installed 2
      (some (10 ∷ 255 ∷ [])) (10 ∷ 255 ∷ []) is_there sum_lem with_lem

absent_lem : stat made header.name ≡ err not_exist
unfolding program
absent_lem = refl

abbrev created : MemFs
created = (open_file header.name creating header.file_mode made).0

opens_lem : open_node max_links header.name creating header.file_mode made ≡ (created, ok 2)
unfolding program
opens_lem = refl

empty_lem : (created.node 2).contents ≡ []
unfolding program
empty_lem = refl

size_lem : length (joined reader.chunks) ≡ 5
unfolding program
size_lem = refl

read_file-install_regular_file_example :
    read_file 6 (install_regular_file lib [] header reader os_package made).0 header.name
    ≡ some (ok (joined reader.chunks))
read_file-install_regular_file_example =
    read_file-install_regular_file lib [] header reader reader os_package made created 2
      (some (10 ∷ 255 ∷ [])) (10 ∷ 255 ∷ []) not_exist 6 made-IsValid absent_lem sum_lem with_lem
      opens_lem empty_lem size_lem (omega arith)

abbrev apk : Apk
apk = record { fs = new_mem_fs; installed_files = [] }

abbrev archive : List (Header × Reader)
archive =
    (record header { name = codes ".PKGINFO" }, reader)
    ∷ (dir_header, reader)
    ∷ (header, reader)
    ∷ []

-- The hidden file is skipped, and the file has its owner; another package may not replace it.
install_tests :
    ((install_apk_files lib os_package false archive apk).1
      ≡ done (dir_header ∷ with_checksum (10 ∷ 255 ∷ []) header ∷ []))
    × (lookup header.name (install_apk_files lib os_package false archive apk).0.installed_files
        ≡ some os_package)
    × ((install_regular_file lib owners header reader other_package installed).1 ≡ failed different)
unfolding program
install_tests = (refl, refl, refl)
