-- ===== src/DirFs/Runs.antt =====
-- Runs on a disk that is a map of names to contents.
use go_apk.Base.{[], ◌∷◌, none, some, ◌≡◌, refl, Option}
use go_apk.Base.Bytes.{Bytes, codes, str_eq, has_prefix, split, join}
use go_apk.Base.Maps.{Map, lookup, insert, delete}
use go_apk.Base.Paths.{clean, clean_elements, join_path, split_path, dir, base, drop_slashes}
use go_apk.MemFs.{permissions, new_mem_fs}
use go_apk.MemFs.Lookup.{child_of, target_path, resolve, walk, get_node_count_links, get_node}
use go_apk.MemFs.Entries.{add_node, with_children}
use go_apk.MemFs.Files
use go_apk.DirFs.{to_lower, standardize_path, look_on_disk, case_sensitive_on_disk, create_on_disk}
use go_apk.DirFs.Store.{other_error, OnDisk, got, denied, Os, done, Store, creates, is_on_disk}
use go_apk.DirFs.Operations.{read_file, write_file, remove}
use go_apk.DirFs.Foreign.{here, next, by_write_file, by_remove, disk-Changes}

abbrev found : Option Bytes → OnDisk Bytes
found none = denied other_error
found (some b) = got b

abbrev refused : {A : Type 0} → Map Bytes → Map Bytes × OnDisk A
refused d = (d, denied other_error)

-- Only files are written, read and removed.
abbrev os : Os (Map Bytes) (Unit {0})
os = record {
  open_to_read = λ path d. refused d;
  open_file = λ path flag perm d. refused d;
  create = λ path d. refused d;
  stat = λ path d. denied other_error;
  read_dir = λ path d. denied other_error;
  read_file = λ path d. found (lookup path d);
  write_file = λ path b mode d. (insert path b d, got tt);
  remove = λ path d. (delete path d, got tt);
  link = λ old_name new_name d. refused d;
  symlink = λ old_name new_name d. refused d;
  mkdir = λ path perm d. refused d;
  mkdir_all = λ path perm d. refused d;
  chmod = λ path perm d. refused d;
  chown = λ path uid gid d. refused d;
  mknod = λ path mode dev d. refused d;
}

-- The name in capital letters is on disk.
abbrev store : Store (Map Bytes)
store = record {
  case_map = some ((codes "a", codes "A") ∷ []);
  overrides = new_mem_fs;
  disk = (codes "/d/A", codes "upper") ∷ [];
}

program : Unit {0}
unfolding to_lower standardize_path look_on_disk case_sensitive_on_disk create_on_disk lookup insert
    delete str_eq has_prefix split join clean clean_elements join_path split_path dir base
    drop_slashes new_mem_fs child_of target_path resolve walk get_node_count_links get_node add_node
    with_children Files.open_entry Files.open_parent Files.open_step Files.open_target
    Files.open_node Files.new_mem_file Files.open_file Files.open_to_read Files.bytes_at Files.read
    Files.written Files.write_at Files.write Files.copy_all Files.read_file Files.write_file creates
    is_on_disk read_file write_file
program = tt

-- The other variant is written, read and removed in memory.
abbrev after : Store (Map Bytes)
after =
    (remove os (codes "/d") (codes "a")
      (write_file os (codes "/d") (codes "a") (codes "lower") (permissions 420) store).0).0

disk-Changes_example : (after.case_map ≡ store.case_map) × (after.disk ≡ store.disk)
disk-Changes_example =
    disk-Changes os (codes "/d") (codes "a") (codes "A") ((codes "a", codes "A") ∷ []) store after
      (unfold program in refl) refl (unfold program in refl) (λ e. absurd (cc e))
      (next (next here (by_write_file (codes "lower") (permissions 420) refl)) (by_remove refl))

-- Each variant has its own contents.
variant_tests :
    let written =
      (write_file os (codes "/d") (codes "a") (codes "lower") (permissions 420) store).0 in
    ((read_file os (codes "/d") 6 (codes "a") written).1 ≡ done (codes "lower"))
    × ((read_file os (codes "/d") 6 (codes "A") written).1 ≡ done (codes "upper"))
unfolding program
variant_tests = (refl, refl)
