-- ===== src/TarFs/Tests.antt =====
-- Runs on a small archive.
use go_apk.Base.{ℕ, false, List, [], ◌∷◌, ◌≡◌, ◌↔◌, refl, length}
use go_apk.Base.Bytes.{Bytes, codes, str_eq, split, join}
use go_apk.Base.Decimal.{pos}
use go_apk.Base.Maps.{lookup, insert}
use go_apk.Base.Paths.{clean, clean_elements, join_path, split_path, dir, drop_slashes}
use go_apk.MemFs.{permissions}
use go_apk.Install.{Header, TypeFlag, dir_type, reg_type, symlink_type}
use go_apk.TarFs.{
  Entry, TarFs, ok, err, too_many_hops, indexed, readlink, link_target, open_entry, open_file,
  of_root, stat, read_dir, index_loop, list_dirs, new_tar_fs,
}
use go_apk.TarFs.Laws.{last_entry, indexed-new_tar_fs}
use go_apk.TarFs.Links.{Leads, open_file-Leads}

-- What the runs compute with.
program : Unit {0}
unfolding lookup insert str_eq split join clean clean_elements join_path split_path dir drop_slashes
    indexed readlink link_target open_entry open_file stat read_dir index_loop list_dirs new_tar_fs
program = tt

abbrev header_of : Bytes → TypeFlag → Bytes → Header
header_of name type_flag link_name = record {
  name = name;
  type_flag = type_flag;
  link_name = link_name;
  size = 0;
  mode = 420;
  file_mode = permissions 420;
  uid = pos 0;
  gid = pos 0;
  pax_records = [];
}

abbrev headers : List (Header × ℕ)
headers =
    (header_of (codes "bin") dir_type [], 512)
    ∷ (header_of (codes "bin/box") reg_type [], 1024)
    ∷ (header_of (codes "bin/sh") symlink_type (codes "box"), 2048)
    ∷ (header_of (codes "loop") symlink_type (codes "loop"), 2560)
    ∷ []

abbrev unsorted : List Entry → List Entry
unsorted entries = entries

abbrev archive : TarFs
archive = elim (new_tar_fs unsorted false headers) [
  | ok fsys ↦ fsys
  | err e ↦ record { files = []; index = []; dirs = [] }
]

archive_lem : new_tar_fs unsorted false headers ≡ ok archive
unfolding program
archive_lem = refl

abbrev shell : Bytes
shell = codes "bin/sh"

abbrev box : Entry
box = record { header = header_of (codes "bin/box") reg_type []; offset = 1024; dir = codes "bin" }

indexed-new_tar_fs_example : indexed archive.files archive.index shell ≡ last_entry shell headers
indexed-new_tar_fs_example = indexed-new_tar_fs unsorted false headers archive shell archive_lem

open_file-Leads_example : (open_file archive shell ≡ ok box) ↔ Leads headers 64 shell box
open_file-Leads_example = open_file-Leads unsorted false headers archive shell box archive_lem

-- The link is followed, one to itself is not followed for ever, and the root is made up.
archive_tests :
    (open_file archive shell ≡ ok box)
    × (open_file archive (codes "loop") ≡ err too_many_hops)
    × (length (read_dir archive (codes "bin")) ≡ 2)
    × (stat archive (codes ".") ≡ ok of_root)
unfolding program
archive_tests = (refl, refl, refl, refl)
