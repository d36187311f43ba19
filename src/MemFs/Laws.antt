-- ===== src/MemFs/Laws.antt =====
-- pkg/fs/memfs.go: what an operation that changes an entry or an attribute does to those that read it.
use Prim.Native.Nat.{suc, ◌-◌, ◌<◌}
use mathlib.Core.Bool.{◌&&◌}
use go_apk.Base.{
  ℕ, true, false, none, some, ◌≡◌, ◌≢◌, ◌∙◌, refl, inl, inr, arith, Option-cases, if◌then◌else◌,
  ◌==◌,
}
use go_apk.Base.Bytes.{Bytes, str_eq, str_eq_iff}
use go_apk.Base.Maps.{lookup, insert, delete, lookup-insert, lookup-delete}
use go_apk.Base.Paths.{dir, base}
use go_apk.MemFs.{Mode, Node, NodeId, MemFs, not_exist, ok, err, Op, ◌>>=◌, set_node, max_links}
use go_apk.MemFs.Lookup.{child_of, get_node}
use go_apk.MemFs.Entries.{
  Unix, found, add_node, add_new, mknod, readnod, symlink, readlink, link_node, link, remove_entry,
  remove,
}
use go_apk.MemFs.Attributes.{set_xattr, get_xattr, remove_xattr}
use go_apk.MemFs.Valid.{IsValid, Grown, set_node-Grown}
use go_apk.MemFs.Resolution.{Result-cases, get_node-Extends, get_node-lt}
use go_apk.MemFs.Files.{Flags, open_node, open_target}
use go_apk.MemFs.Opening.{Opened, open_step-Opened}
use go_apk.MemFs.Growth.{symlink-Grown, mknod-Grown, link-Grown}

-- A new entry that was added names the new node.
add_new_lem :
    (fs fs' : MemFs) (i : NodeId) (name : Bytes) (n : Node)
    → i < fs.next
    → add_new i name n fs ≡ (fs', ok tt)
    → (c : NodeId) × (child_of fs' i name ≡ some c) × (fs'.node c ≡ n)
unfolding add_new add_node child_of
add_new_lem fs fs' i name n h e = elim (Option-cases (fs.node i).children) [
  | inl f ↦ absurd (ground arith)
  | inr (m, f) ↦ elim (Option-cases (lookup name m)) [
    | inr (c, g) ↦ absurd (ground arith)
    | inl g ↦
        let made = set_node (record fs { next = suc fs.next }) fs.next n in
        let same : set_node made i (record (fs.node i) { children = some (insert name fs.next m) })
            ≡ fs' =
          ground arith in
        (
          fs.next,
          rw (← same) (ground (arith, lookup-insert name name fs.next m, str_eq_iff name name)),
          rw (← same) (ground arith),
        )
  ]
]

-- The first step of an operation that succeeds finds a node.
found_inversion :
    (fs fs' : MemFs) (path : Bytes) (f : NodeId → Op (Unit {0}))
    → (found path >>= f) fs ≡ (fs', ok tt)
    → (i : NodeId) × (get_node fs path ≡ ok i) × (f i fs ≡ (fs', ok tt))
found_inversion fs fs' path f e = elim (Result-cases (get_node fs path)) [
  | inr (x, g) ↦ absurd (ground arith)
  | inl (i, g) ↦ (i, g, ground arith)
]

-- After a `Symlink` that succeeds, `Readlink` of the new name returns the old one, whether or not
-- there is a file of that name.
pub readlink-symlink :
    (fs fs' : MemFs) (old_name new_name : Bytes)
    → IsValid fs
    → symlink old_name new_name fs ≡ (fs', ok tt)
    → readlink fs' new_name ≡ ok old_name
unfolding symlink readlink
readlink-symlink fs fs' old_name new_name v e =
    let (i, g, h) = found_inversion fs fs' (dir new_name) _ e in
    let (c, entry, node) =
      add_new_lem fs fs' i (base new_name) _ (get_node-lt fs (dir new_name) i v g) h in
    let x : Grown fs fs' = rw e at (symlink-Grown fs v old_name new_name) in
    ground (arith, get_node-Extends fs fs' (dir new_name) i v x.extends g, entry, node)

-- After a `Mknod` that succeeds, `Readnod` returns the device number, if the number that is put
-- together from its parts is that number again.
pub readnod-mknod :
    (unix : Unix) (fs fs' : MemFs) (path : Bytes) (mode : Mode) (dev : ℕ)
    → IsValid fs
    → unix.mkdev (unix.major dev) (unix.minor dev) ≡ dev
    → mknod unix path mode dev fs ≡ (fs', ok tt)
    → readnod unix fs' path ≡ ok dev
unfolding mknod readnod
readnod-mknod unix fs fs' path mode dev v k e =
    let (i, g, h) = found_inversion fs fs' (dir path) _ e in
    let (c, entry, node) = add_new_lem fs fs' i (base path) _ (get_node-lt fs (dir path) i v g) h in
    let x : Grown fs fs' = rw e at (mknod-Grown fs v unix path mode dev) in
    ground (arith, get_node-Extends fs fs' (dir path) i v x.extends g, entry, node, k)

-- After a `SetXattr` that succeeds, `GetXattr` at that path returns the new value for that
-- attribute and what it returned before for any other.
pub get_xattr-set_xattr :
    (fs fs' : MemFs) (path attr value other : Bytes)
    → IsValid fs
    → set_xattr path attr value fs ≡ (fs', ok tt)
    → get_xattr fs' path other ≡ (if str_eq attr other then ok value else get_xattr fs path other)
unfolding set_xattr get_xattr
get_xattr-set_xattr fs fs' path attr value other v e = elim (Result-cases (get_node fs path)) [
  | inr (x, g) ↦ absurd (ground arith)
  | inl (i, g) ↦
      let n = record (fs.node i) { xattrs = insert attr value (fs.node i).xattrs } in
      let same : set_node fs i n ≡ fs' = ground arith in
      let x = (set_node-Grown fs i n v refl refl refl refl).extends in
      rw (← same) (
        ground (
          arith,
          get_node-Extends fs (set_node fs i n) path i v x g,
          g,
          lookup-insert attr other value (fs.node i).xattrs,
        ))
]

-- After a `RemoveXattr` that succeeds, `GetXattr` at that path finds the attribute no more, and
-- returns what it returned before for any other.
pub get_xattr-remove_xattr :
    (fs fs' : MemFs) (path attr other : Bytes)
    → IsValid fs
    → remove_xattr path attr fs ≡ (fs', ok tt)
    → get_xattr fs' path other
      ≡ (if str_eq attr other then err not_exist else get_xattr fs path other)
unfolding remove_xattr get_xattr
get_xattr-remove_xattr fs fs' path attr other v e = elim (Result-cases (get_node fs path)) [
  | inr (x, g) ↦ absurd (ground arith)
  | inl (i, g) ↦ elim (Option-cases (lookup attr (fs.node i).xattrs)) [
    | inl f ↦
        let same : fs ≡ fs' = ground arith in rw (← same) (ground (arith, g, str_eq_iff attr other))
    | inr (value, f) ↦
        let n = record (fs.node i) { xattrs = delete attr (fs.node i).xattrs } in
        let same : set_node fs i n ≡ fs' = ground arith in
        let x = (set_node-Grown fs i n v refl refl refl refl).extends in
        rw (← same) (
          ground (
            arith,
            get_node-Extends fs (set_node fs i n) path i v x g,
            g,
            lookup-delete attr other (fs.node i).xattrs,
          ))
  ]
]

remove_entry_lem :
    (fs fs' : MemFs) (i : NodeId) (name : Bytes)
    → remove_entry i name fs ≡ (fs', ok tt)
    → (child_of fs i name ≢ none)
      × ((j : NodeId) (k : Bytes)
          → child_of fs' j k ≡ (if (i == j) && str_eq name k then none else child_of fs j k))
unfolding remove_entry child_of
remove_entry_lem fs fs' i name e = elim (Option-cases (fs.node i).children) [
  | inl f ↦ absurd (ground arith)
  | inr (m, f) ↦ elim (Option-cases (lookup name m)) [
    | inl g ↦ absurd (ground arith)
    | inr (c, g) ↦
        let counted =
          set_node fs c (record (fs.node c) { link_count = (fs.node c).link_count - 1 }) in
        let same : set_node counted i (record (counted.node i) { children = some (delete name m) })
            ≡ fs' =
          ground arith in
        (λ h. ground arith, λ j k. rw (← same) (ground (arith, lookup-delete name k m)))
  ]
]

link_node_lem :
    (fs fs' : MemFs) (i : NodeId) (name : Bytes) (t : NodeId)
    → link_node i name t fs ≡ (fs', ok tt)
    → child_of fs' i name ≡ some t
unfolding link_node child_of
link_node_lem fs fs' i name t e = elim (Option-cases (fs.node i).children) [
  | inl f ↦ absurd (ground arith)
  | inr (m, f) ↦ elim (Option-cases (lookup name m)) [
    | inr (c, g) ↦ absurd (ground arith)
    | inl g ↦
        let linked = set_node fs i (record (fs.node i) { children = some (insert name t m) }) in
        let same : set_node linked t
              (record (linked.node t) { link_count = suc (linked.node t).link_count })
            ≡ fs' =
          ground arith in
        rw (← same) (ground (arith, lookup-insert name name t m, str_eq_iff name name))
  ]
]

-- `Remove`, where it succeeds, takes the one entry that the path names, and leaves all others.
pub child_of-remove :
    (fs fs' : MemFs) (name : Bytes)
    → remove name fs ≡ (fs', ok tt)
    → (i : NodeId) × (get_node fs (dir name) ≡ ok i)
      × (child_of fs i (base name) ≢ none)
      × ((j : NodeId) (k : Bytes)
          → child_of fs' j k ≡ (if (i == j) && str_eq (base name) k then none else child_of fs j k))
unfolding remove
child_of-remove fs fs' name e =
    let (i, g, h) = found_inversion fs fs' (dir name) _ e in
    let (some_entry, others) = remove_entry_lem fs fs' i (base name) h in (i, g, some_entry, others)

-- After `Link`, where it succeeds, the new name is an entry for the node to which the old name leads.
-- So a file that is no link is opened as that same node, if the directory of the new name is one.
pub open_node-link :
    (fs fs' : MemFs) (old_name new_name : Bytes) (t i : NodeId) (flag : Flags) (perm : Mode)
    → IsValid fs
    → get_node fs old_name ≡ ok t
    → (fs.node t).dir ≡ false
    → (fs.node t).mode.is_symlink ≡ false
    → get_node fs (dir new_name) ≡ ok i
    → (fs.node i).dir ≡ true
    → link old_name new_name fs ≡ (fs', ok tt)
    → open_node max_links new_name flag perm fs' ≡ (fs', ok t)
unfolding link open_node open_target
open_node-link fs fs' old_name new_name t i flag perm v found file no_link at d e =
    let x : Grown fs fs' = rw e at (link-Grown fs v old_name new_name) in
    let o : Opened fs' new_name t = record {
      parent = i;
      parent_found = get_node-Extends fs fs' (dir new_name) i v x.extends at;
      parent_dir = x.extends.same_dir i (get_node-lt fs (dir new_name) i v at) ∙ d;
      entry = link_node_lem fs fs' i (base new_name) t (ground arith);
      file = x.extends.same_dir t (get_node-lt fs old_name t v found) ∙ file;
    } in
    let link = x.extends.same_link t (get_node-lt fs old_name t v found) in
    rw (open_step-Opened fs' new_name t flag perm o) (ground arith)
