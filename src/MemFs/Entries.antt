-- ===== src/MemFs/Entries.antt =====
-- pkg/fs/memfs.go: the operations on the entries of directories.
use Prim.Native.Nat.{suc, ◌-◌}
use mathlib.Core.Bool.{◌&&◌}
use go_apk.Base.{ℕ, true, false, List, [], ◌∷◌, ◌++◌, none, some, if◌then◌else◌, is_nil}
use go_apk.Base.Bytes.{Bytes, split, join}
use go_apk.Base.Maps.{insert, delete}
use go_apk.Base.Paths.{dir, base}
use go_apk.MemFs.{
  Mode, permissions, Node, NodeId, MemFs, not_exist, exist, not_directory, not_device, not_link,
  panicked, Result, ok, err, Op, ◌>>=◌, set_node, new_node, new_dir, root, path_sep,
}
use go_apk.MemFs.Lookup.{child_of, target_path, get_node}

-- A node is allocated, and is made an entry of a directory. Go panics at an assignment to a nil map.
unfoldable pub add_node : NodeId → Bytes → Node → Op NodeId
add_node i name n fs = elim (fs.node i).children [
  | none ↦ (fs, err panicked)
  | some m ↦
      let allocated = set_node (record fs { next = suc fs.next }) fs.next n in
      (
        set_node allocated i (record (fs.node i) { children = some (insert name fs.next m) }),
        ok fs.next,
      )
]

-- ... unless there is an entry of that name.
unfoldable pub add_new : NodeId → Bytes → Node → Op (Unit {0})
unfolding add_node child_of
add_new i name n fs = elim (child_of fs i name) [
  | some c ↦ (fs, err exist)
  | none ↦ (add_node i name n >>= λ c s. (s, ok tt)) fs
]

-- `getNode` as the first step of an operation.
abbrev pub found : Bytes → Op NodeId
found path fs = (fs, get_node fs path)

-- `Mkdir`.
unfoldable pub mkdir : Bytes → Mode → Op (Unit {0})
mkdir path perms = found (dir path) >>= λ i fs.
    if (fs.node i).mode.is_dir
    then add_new i (base path) (new_dir (base path) perms) fs
    else (fs, err not_directory)

-- The device numbers of golang.org/x/sys/unix, which is not part of the repository.
pub record Unix : Type 0 where
  pub major : ℕ → ℕ
  pub minor : ℕ → ℕ
  pub mkdev : ℕ → ℕ → ℕ

-- `Mknod`.
unfoldable pub mknod : Unix → Bytes → Mode → ℕ → Op (Unit {0})
mknod unix path mode dev = found (dir path) >>= λ i.
    add_new i (base path)
      (record (new_node (base path) (record mode { is_char_device = true; is_device = true })) {
        major = unix.major dev;
        minor = unix.minor dev;
      })

-- `Readnod`.
unfoldable pub readnod : Unix → MemFs → Bytes → Result ℕ
readnod unix fs path = elim (get_node fs (dir path)) [
  | err e ↦ err e
  | ok i ↦ elim (child_of fs i (base path)) [
    | none ↦ err not_exist
    | some c ↦
        let n = fs.node c in
        if n.mode.is_device && n.mode.is_char_device
        then ok (unix.mkdev n.major n.minor)
        else err not_device
  ]
]

-- `Symlink`; 0o777 is 511.
unfoldable pub symlink : Bytes → Bytes → Op (Unit {0})
symlink old_name new_name = found (dir new_name) >>= λ i.
    add_new i (base new_name)
      (record (new_node (base new_name) (record (permissions 511) { is_symlink = true })) {
        link_target = old_name;
      })

-- `Readlink`.
unfoldable pub readlink : MemFs → Bytes → Result Bytes
readlink fs name = elim (get_node fs (dir name)) [
  | err e ↦ err e
  | ok i ↦ elim (child_of fs i (base name)) [
    | none ↦ err not_exist
    | some c ↦ if (fs.node c).mode.is_symlink then ok (fs.node c).link_target else err not_link
  ]
]

-- An existing node is made an entry, and counts one link more.
unfoldable pub link_node : NodeId → Bytes → NodeId → Op (Unit {0})
link_node i name target fs = elim (child_of fs i name) [
  | some c ↦ (fs, err exist)
  | none ↦ elim (fs.node i).children [
    | none ↦ (fs, err panicked)
    | some m ↦
        let linked =
          set_node fs i (record (fs.node i) { children = some (insert name target m) }) in
        let n = linked.node target in
        (set_node linked target (record n { link_count = suc n.link_count }), ok tt)
  ]
]

-- `Link`: no error of the old name is passed on but that it does not exist.
unfoldable pub link : Bytes → Bytes → Op (Unit {0})
link old_name new_name = found (dir new_name) >>= λ i fs. elim (get_node fs old_name) [
  | err e ↦ (fs, err not_exist)
  | ok target ↦ link_node i (base new_name) target fs
]

-- The entry goes, and the node that it named counts one link less.
unfoldable pub remove_entry : NodeId → Bytes → Op (Unit {0})
remove_entry i name fs = elim (child_of fs i name) [
  | none ↦ (fs, err not_exist)
  | some c ↦
      let counted =
        set_node fs c (record (fs.node c) { link_count = (fs.node c).link_count - 1 }) in
      let parent = counted.node i in
      (
        set_node counted i (record parent {
          children = elim parent.children [ none ↦ none | some m ↦ some (delete name m) ];
        }),
        ok tt,
      )
]

-- `Remove`.
unfoldable pub remove : Bytes → Op (Unit {0})
remove name = found (dir name) >>= λ i. remove_entry i (base name)

-- `children` is made where it is nil.
unfoldable pub with_children : NodeId → MemFs → MemFs
with_children i fs = elim (fs.node i).children [
  | none ↦ set_node fs i (record (fs.node i) { children = some [] })
  | some m ↦ fs
]

-- The child of that name, which is made a directory if there is none.
unfoldable pub child_or_dir : NodeId → Bytes → Mode → Op NodeId
unfolding child_of add_node
child_or_dir i part perm fs = elim (child_of fs i part) [
  | some c ↦ (fs, ok c)
  | none ↦ add_node i part (new_dir part perm) fs
]

-- Where a child is a link, `getNode` finds what it leads to.
unfoldable pub linked_node : List Bytes → NodeId → Op NodeId
linked_node traversed c fs =
    if (fs.node c).mode.is_symlink
    then (fs, get_node fs (target_path (join traversed path_sep) (fs.node c).link_target))
    else (fs, ok c)

-- One part of the path: the child, made if it is not there, or what it leads to.
unfoldable pub descend : Mode → NodeId → List Bytes → Bytes → Op NodeId
descend perm i traversed part fs =
    (child_or_dir i part perm >>= linked_node traversed) (with_children i fs)

-- The loop of `MkdirAll`.
unfoldable pub mkdir_loop : Mode → NodeId → List Bytes → List Bytes → Op (Unit {0})
mkdir_loop perm i traversed [] fs = (fs, ok tt)
mkdir_loop perm i traversed (part ∷ parts) fs =
    let skip = mkdir_loop perm i traversed parts fs in
    if is_nil part
    then skip
    else ((descend perm i traversed part >>= λ c s. elim (s.node c).dir [
      | true ↦ mkdir_loop perm c (traversed ++ part ∷ []) parts s
      | false ↦ (s, err not_directory)
    ])
        fs)

-- `MkdirAll`.
unfoldable pub mkdir_all : Bytes → Mode → Op (Unit {0})
unfolding mkdir_loop
mkdir_all path perm = mkdir_loop perm root [] (split path path_sep)
