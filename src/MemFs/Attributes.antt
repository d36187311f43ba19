-- ===== src/MemFs/Attributes.antt =====
-- pkg/fs/memfs.go: modes, owners, extended attributes and the listing of a directory.
use go_apk.Base.{List, [], ◌∷◌, none, some, if◌then◌else◌}
use go_apk.Base.Bytes.{Bytes, str_ltb}
use go_apk.Base.Decimal.{ℤ}
use go_apk.Base.Maps.{Map, lookup, insert, delete}
use go_apk.MemFs.{
  Mode, keep_type, Node, NodeId, MemFs, not_exist, not_directory, Result, ok, err, Op, ◌>>=◌,
  set_node,
}
use go_apk.MemFs.Lookup.{get_node}
use go_apk.MemFs.Entries.{found}

-- `Chmod` keeps the type of the node.
unfoldable pub chmod : Bytes → Mode → Op (Unit {0})
chmod path perm = found path >>= λ i fs.
    (set_node fs i (record (fs.node i) { mode = keep_type perm (fs.node i).mode }), ok tt)

-- `Chown`.
unfoldable pub chown : Bytes → ℤ → ℤ → Op (Unit {0})
chown path uid gid =
    found path >>= λ i fs. (set_node fs i (record (fs.node i) { uid = uid; gid = gid }), ok tt)

-- The extended attributes of the node at a path: any error is that it does not exist.
abbrev pub attributed : MemFs → Bytes → Result NodeId
attributed fs path = elim (get_node fs path) [ err e ↦ err not_exist | ok i ↦ ok i ]

-- `SetXattr`.
unfoldable pub set_xattr : Bytes → Bytes → Bytes → Op (Unit {0})
set_xattr path attr value = (λ fs. (fs, attributed fs path)) >>= λ i fs.
    (set_node fs i (record (fs.node i) { xattrs = insert attr value (fs.node i).xattrs }), ok tt)

-- `GetXattr`.
unfoldable pub get_xattr : MemFs → Bytes → Bytes → Result Bytes
get_xattr fs path attr = elim (attributed fs path) [
  | err e ↦ err e
  | ok i ↦ elim (lookup attr (fs.node i).xattrs) [ none ↦ err not_exist | some value ↦ ok value ]
]

-- `RemoveXattr`.
unfoldable pub remove_xattr : Bytes → Bytes → Op (Unit {0})
remove_xattr path attr = (λ fs. (fs, attributed fs path)) >>= λ i fs.
    elim (lookup attr (fs.node i).xattrs) [
      | none ↦ (fs, ok tt)
      | some value ↦
          (set_node fs i (record (fs.node i) { xattrs = delete attr (fs.node i).xattrs }), ok tt)
    ]

-- `ListXattrs`: the copy of the map.
unfoldable pub list_xattrs : MemFs → Bytes → Result (Map Bytes)
list_xattrs fs path = elim (attributed fs path) [ err e ↦ err e | ok i ↦ ok (fs.node i).xattrs ]

-- `sort.Slice` by the names.
unfoldable pub insert_entry : Bytes × Node → List (Bytes × Node) → List (Bytes × Node)
insert_entry (k, n) [] = (k, n) ∷ []
insert_entry (k, n) ((j, m) ∷ es) =
    if str_ltb j k then (j, m) ∷ insert_entry (k, n) es else (k, n) ∷ (j, m) ∷ es

unfoldable pub sorted_entries : MemFs → Map NodeId → List (Bytes × Node)
unfolding insert_entry
sorted_entries fs [] = []
sorted_entries fs ((k, i) ∷ m) = insert_entry (k, fs.node i) (sorted_entries fs m)

-- `ReadDir`: the names with the nodes.
unfoldable pub read_dir : MemFs → Bytes → Result (List (Bytes × Node))
read_dir fs name = elim (get_node fs name) [
  | err e ↦ err e
  | ok i ↦
      if (fs.node i).dir
      then elim (fs.node i).children [ none ↦ ok [] | some m ↦ ok (sorted_entries fs m) ]
      else err not_directory
]
