-- ===== src/MemFs/Tests.antt =====
-- Runs of the file system in memory.
use Prim.Native.Nat.{suc, ◌+◌, ◌*◌, ◌/◌, ◌%◌}
use go_apk.Base.{true, some, ◌≡◌, refl, arith}
use go_apk.Base.Bytes.{Bytes, codes, str_eq, split, join}
use go_apk.Base.Maps.{lookup, insert, delete}
use go_apk.Base.Paths.{clean, clean_elements, join_path, split_path, dir, base, drop_slashes}
use go_apk.MemFs.{
  MemFs, exist, too_many_links, panicked, ok, err, NodeId, permissions, new_mem_fs, max_links,
}
use go_apk.MemFs.Lookup.{child_of, target_path, resolve, walk, get_node_count_links, get_node}
use go_apk.MemFs.Entries.{
  Unix, add_node, add_new, mkdir, mknod, symlink, link_node, link, remove_entry, remove,
  with_children, child_or_dir, linked_node, descend, mkdir_loop, mkdir_all,
}
use go_apk.MemFs.Attributes.{set_xattr, remove_xattr}
use go_apk.MemFs.Files.{
  read_only, open_entry, open_parent, open_step, open_target, open_node, new_mem_file, open_file,
  write_file, read_file,
}
use go_apk.MemFs.Valid.{IsValid}
use go_apk.MemFs.Reach.{
  grows, by_mkdir_all, by_open_file, here, next, Reach-IsValid, by_symlink, get_node-Growths,
}
use go_apk.MemFs.Directories.{mkdir_all-dir}
use go_apk.MemFs.Contents.{writing, read_file-write_file}
use go_apk.MemFs.Laws.{open_node-link}

-- What the runs compute with.
program : Unit {0}
unfolding new_mem_fs get_node get_node_count_links walk resolve target_path child_of add_node
    add_new mkdir mknod symlink link_node link remove_entry remove with_children child_or_dir
    linked_node descend mkdir_loop mkdir_all set_xattr remove_xattr open_entry open_parent open_step
    open_target open_node new_mem_file open_file write_file lookup insert delete clean
    clean_elements join_path split_path dir base drop_slashes str_eq split join
program = tt

abbrev path_usr_lib : Bytes
path_usr_lib = codes "usr/lib"

-- A file system with the directories usr and usr/lib.
abbrev made : MemFs
made = (mkdir_all path_usr_lib (permissions 493) new_mem_fs).0

Reach-IsValid_example : IsValid made
Reach-IsValid_example =
    Reach-IsValid (next here (grows (by_mkdir_all path_usr_lib (permissions 493) refl)))

made_lem : mkdir_all path_usr_lib (permissions 493) new_mem_fs ≡ (made, ok tt)
unfolding program
made_lem = refl

new-IsValid : IsValid new_mem_fs
new-IsValid = Reach-IsValid here

made-IsValid : IsValid made
made-IsValid = Reach-IsValid (next here (grows (by_mkdir_all path_usr_lib (permissions 493) refl)))

mkdir_all-dir_example :
    (i : NodeId) × (get_node_count_links made (suc max_links) path_usr_lib ≡ ok i)
    × ((made.node i).dir ≡ true)
mkdir_all-dir_example =
    mkdir_all-dir path_usr_lib (permissions 493) new_mem_fs made new-IsValid made_lem

abbrev path_lib : Bytes
path_lib = codes "/lib"

abbrev linked : MemFs
linked = (symlink path_usr_lib path_lib made).0

linked_lem : symlink path_usr_lib path_lib made ≡ (linked, ok tt)
unfolding program
linked_lem = refl

get_node-made : get_node made path_usr_lib ≡ ok 2
unfolding program
get_node-made = refl

-- The link leads to the directory.
get_node-linked : get_node linked path_lib ≡ ok 2
unfolding program
get_node-linked = refl

get_node-Growths_example : get_node linked path_usr_lib ≡ ok 2
get_node-Growths_example =
    get_node-Growths path_usr_lib 2 made-IsValid (next here (by_symlink path_usr_lib path_lib refl))
      get_node-made

abbrev path_file : Bytes
path_file = codes "usr/lib/os"

opened : (open_node max_links path_file writing (permissions 420) made).1 ≡ ok 3
unfolding program
opened = refl

read_file-write_file_example :
    ((write_file path_file (codes "hello") (permissions 420) made).1 ≡ ok tt)
    × (read_file 6 (write_file path_file (codes "hello") (permissions 420) made).0 path_file
        ≡ some (ok (codes "hello")))
read_file-write_file_example =
    read_file-write_file made path_file (codes "hello") (permissions 420) 3 6 made-IsValid opened
      (omega arith)

-- Device numbers with a minor number of eight bits.
abbrev unix : Unix
unix = record { major = λ d. d / 256; minor = λ d. d % 256; mkdev = λ a b. a * 256 + b }

abbrev path_null : Bytes
path_null = codes "usr/null"

abbrev with_null : MemFs
with_null = (mknod unix path_null (permissions 438) 259 made).0

with_null_lem : mknod unix path_null (permissions 438) 259 made ≡ (with_null, ok tt)
unfolding program
with_null_lem = refl

abbrev attr_a : Bytes
attr_a = codes "user.a"

abbrev with_attr : MemFs
with_attr = (set_xattr path_usr_lib attr_a (codes "1") made).0

with_attr_lem : set_xattr path_usr_lib attr_a (codes "1") made ≡ (with_attr, ok tt)
unfolding program
with_attr_lem = refl

removed_attr_lem : remove_xattr path_usr_lib attr_a made ≡ (made, ok tt)
unfolding program
removed_attr_lem = refl

abbrev removed : MemFs
removed = (remove path_usr_lib made).0

removed_lem : remove path_usr_lib made ≡ (removed, ok tt)
unfolding program
removed_lem = refl

abbrev filed : MemFs
filed = (open_file path_file writing (permissions 420) made).0

-- `usr/lib/os` has a second name.
abbrev path_copy : Bytes
path_copy = codes "usr/copy"

abbrev hard_linked : MemFs
hard_linked = (link path_file path_copy filed).0

-- `Symlink` below a file panics, and a link to itself is not followed for ever.
failing_tests :
    ((symlink path_lib (codes "usr/lib/os/x") filed).1 ≡ err panicked)
    × (get_node (symlink path_lib path_lib made).0 path_lib ≡ err too_many_links)
    × ((mkdir path_usr_lib (permissions 493) made).1 ≡ err exist)
unfolding program
failing_tests = (refl, refl, refl)

filed-IsValid : IsValid filed
filed-IsValid = Reach-IsValid (
    next (next here (grows (by_mkdir_all path_usr_lib (permissions 493) refl)))
      (grows (by_open_file path_file writing (permissions 420) refl)))

open_node-link_example :
    open_node max_links path_copy read_only (permissions 420) hard_linked ≡ (hard_linked, ok 3)
unfolding program
open_node-link_example =
    open_node-link filed hard_linked path_file path_copy 3 1 read_only (permissions 420)
      filed-IsValid refl refl refl refl refl refl
