-- ===== src/MemFs/Growth.antt =====
-- pkg/fs/memfs.go: the operations that keep all that is there.
use Prim.Native.Nat.{suc, ◌<◌}
use go_apk.Base.{ℕ, true, [], none, some, ◌≡◌, ◌≢◌, refl, inl, inr, arith, Bool-cases, Option-cases}
use go_apk.Base.Bytes.{Bytes, str_eq_iff}
use go_apk.Base.Maps.{Map, lookup, insert, lookup-insert}
use go_apk.Base.Paths.{dir, base}
use go_apk.MemFs.{Mode, Node, NodeId, MemFs, ok, Op, ◌>>=◌, set_node, new_node, new_dir}
use go_apk.MemFs.Lookup.{child_of, get_node}
use go_apk.MemFs.Entries.{
  Unix, found, add_node, add_new, mkdir, mknod, symlink, link_node, link, with_children,
}
use go_apk.MemFs.Resolution.{Result-cases, get_node-lt}
use go_apk.MemFs.Valid.{IsValid, Grown, Grown-refl, Grown-bind}

lookup-nil : (k : Bytes) → lookup {V = NodeId} k [] ≡ none
unfolding lookup
lookup-nil k = refl

-- A node without entries, which a directory has a map for.
pub record IsNew (n : Node) : Type 0 where
  pub no_entries : (m : Map NodeId) → n.children ≡ some m → m ≡ []
  pub has_map : n.dir ≡ true → n.children ≢ none

pub new_node-IsNew : (name : Bytes) (mode : Mode) → IsNew (new_node name mode)
new_node-IsNew name mode = record {
  no_entries = λ m e. absurd (cc e);
  has_map = λ e. absurd (cc e);
}

pub new_dir-IsNew : (name : Bytes) (perms : Mode) → IsNew (new_dir name perms)
new_dir-IsNew name perms = record { no_entries = λ m e. ground arith; has_map = λ d e. cc e }

module _ (fs : MemFs) (v : IsValid fs) (i : NodeId) (name : Bytes) (n : Node) (w : IsNew n) where
  add_entry-IsValid :
      (m : Map NodeId)
      → i < fs.next
      → (fs.node i).children ≡ some m
      → IsValid (
          set_node
            (set_node (record fs { next = suc fs.next }) fs.next n)
            i
            (record (fs.node i) { children = some (insert name fs.next m) }))
  add_entry-IsValid m h e = record {
    root_allocated = ground (arith, v.root_allocated);
    root_dir = ground (arith, v.root_dir, v.root_allocated);
    allocated = λ j c l k f g. ground (
      arith,
      lookup-insert name k fs.next m,
      v.allocated j c l k,
      v.allocated i c m k,
      w.no_entries l,
      lookup-nil k,
    );
    with_map = λ j f g. ground (arith, w.has_map, v.with_map j, v.with_map i);
  }

  pub add_node-Grown : i < fs.next → child_of fs i name ≡ none → Grown fs (add_node i name n fs).0
  unfolding add_node child_of
  add_node-Grown h e = elim (Option-cases (fs.node i).children) [
    | inl f ↦ rw (f, add_node) (Grown-refl fs v)
    | inr (m, f) ↦
        rw (f, add_node)
          (record {
            valid = add_entry-IsValid m h f;
            extends = record {
              grown = omega arith;
              same_link = λ j l. ground arith;
              same_target = λ j l. ground arith;
              same_dir = λ j l. ground arith;
              kept = λ j c k l g. ground (arith, lookup-insert name k fs.next m, str_eq_iff name k);
            };
          })
  ]

pub add_node-lt :
    (fs : MemFs) (i c : NodeId) (name : Bytes) (n : Node)
    → (add_node i name n fs).1 ≡ ok c
    → c < (add_node i name n fs).0.next
unfolding add_node
add_node-lt fs i c name n e = elim (Option-cases (fs.node i).children) [
  | inl f ↦ absurd (ground arith)
  | inr (m, f) ↦ rw (f, add_node) (ground arith)
]

-- An operation that starts by finding a node.
pub found-Grown {ℓ} :
    {B : Type ℓ} (fs : MemFs) (path : Bytes) (f : NodeId → Op B)
    → IsValid fs
    → ((i : NodeId) → i < fs.next → get_node fs path ≡ ok i → Grown fs (f i fs).0)
    → Grown fs ((found path >>= f) fs).0
found-Grown fs path f v h =
    Grown-bind fs (found path fs) f (Grown-refl fs v) λ i e. h i (get_node-lt fs path i v e) e

add_new-Grown :
    (fs : MemFs) (i : NodeId) (name : Bytes) (n : Node)
    → IsValid fs
    → IsNew n
    → i < fs.next
    → Grown fs (add_new i name n fs).0
unfolding add_new
add_new-Grown fs i name n v w h = elim (Option-cases (child_of fs i name)) [
  | inr (c, e) ↦ rw (e, add_new) (Grown-refl fs v)
  | inl e ↦
      rw (e, add_new)
        (Grown-bind fs (add_node i name n fs) (λ c s. (s, ok tt))
          (add_node-Grown fs v i name n w h e)
          λ c f. Grown-refl _ (add_node-Grown fs v i name n w h e).valid)
]

module _ (fs : MemFs) (v : IsValid fs) where
  pub mkdir-Grown : (path : Bytes) (perms : Mode) → Grown fs (mkdir path perms fs).0
  unfolding mkdir
  mkdir-Grown path perms = found-Grown fs (dir path) _ v λ i h e.
      elim (Bool-cases (fs.node i).mode.is_dir) [
        | inl d ↦ rw d (
            add_new-Grown fs i (base path) (new_dir (base path) perms) v
              (new_dir-IsNew (base path) perms) h)
        | inr d ↦ rw d (Grown-refl fs v)
      ]

  pub mknod-Grown :
      (unix : Unix) (path : Bytes) (mode : Mode) (dev : ℕ)
      → Grown fs (mknod unix path mode dev fs).0
  unfolding mknod
  mknod-Grown unix path mode dev = found-Grown fs (dir path) _ v λ i h e.
      add_new-Grown fs i (base path) _ v
        (record { no_entries = λ m f. absurd (cc f); has_map = λ f. absurd (cc f) }) h

  pub symlink-Grown : (old_name new_name : Bytes) → Grown fs (symlink old_name new_name fs).0
  unfolding symlink
  symlink-Grown old_name new_name = found-Grown fs (dir new_name) _ v λ i h e.
      add_new-Grown fs i (base new_name) _ v
        (record { no_entries = λ m f. absurd (cc f); has_map = λ f. absurd (cc f) }) h

  link_node-Grown :
      (i : NodeId) (name : Bytes) (target : NodeId)
      → i < fs.next
      → target < fs.next
      → Grown fs (link_node i name target fs).0
  unfolding link_node child_of
  link_node-Grown i name target h t = elim (Option-cases (child_of fs i name)) [
    | inr (c, e) ↦ rw (e, link_node) (Grown-refl fs v)
    | inl e ↦ elim (Option-cases (fs.node i).children) [
      | inl f ↦ rw (e, link_node) (rw f (Grown-refl fs v))
      | inr (m, f) ↦
          rw (e, link_node)
            (rw f (record {
              valid = record {
                root_allocated = v.root_allocated;
                root_dir = ground (arith, v.root_dir);
                allocated = λ j c l k a b. ground (
                  arith,
                  lookup-insert name k target m,
                  v.allocated j c l k,
                  v.allocated i c m k,
                );
                with_map = λ j a b. ground (arith, v.with_map j, v.with_map i);
              };
              extends = record {
                grown = omega arith;
                same_link = λ j l. ground arith;
                same_target = λ j l. ground arith;
                same_dir = λ j l. ground arith;
                kept =
                    λ j c k l g. ground (arith, lookup-insert name k target m, str_eq_iff name k);
              };
            }))
    ]
  ]

  pub link-Grown : (old_name new_name : Bytes) → Grown fs (link old_name new_name fs).0
  unfolding link
  link-Grown old_name new_name = found-Grown fs (dir new_name) _ v λ i h e.
      elim (Result-cases (get_node fs old_name)) [
        | inr (w, f) ↦ rw f (Grown-refl fs v)
        | inl (t, f) ↦ rw f (link_node-Grown i (base new_name) t h (get_node-lt fs old_name t v f))
      ]

  pub with_children-Grown : (i : NodeId) → Grown fs (with_children i fs)
  unfolding with_children child_of
  with_children-Grown i = elim (Option-cases (fs.node i).children) [
    | inr (m, f) ↦ rw (f, with_children) (Grown-refl fs v)
    | inl f ↦
        rw (f, with_children)
          (record {
            valid = record {
              root_allocated = v.root_allocated;
              root_dir = ground (arith, v.root_dir);
              allocated = λ j c l k a b. ground (arith, lookup-nil k, v.allocated j c l k);
              with_map = λ j a b. ground (arith, v.with_map j);
            };
            extends = record {
              grown = omega arith;
              same_link = λ j l. ground arith;
              same_target = λ j l. ground arith;
              same_dir = λ j l. ground arith;
              kept = λ j c k l g. ground arith;
            };
          })
  ]
