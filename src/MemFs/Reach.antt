-- ===== src/MemFs/Reach.antt =====
-- pkg/fs/memfs.go: sequences of operations.
use Prim.Native.Nat.{◌-◌}
use mathlib.Core.Bool.{◌&&◌}
use go_apk.Base.{
  ℕ, Option, none, some, ◌≡◌, refl, inl, inr, arith, Bool-cases, Option-cases, if◌then◌else◌,
}
use go_apk.Base.Bytes.{Bytes}
use go_apk.Base.Decimal.{ℤ, pos, negsuc}
use go_apk.Base.Maps.{lookup, lookup-delete}
use go_apk.Base.Paths.{dir, base}
use go_apk.MemFs.{
  Mode, NodeId, MemFs, closed, not_writable, Result, ok, err, Op, ◌>>=◌, set_node, new_mem_fs,
  max_links,
}
use go_apk.MemFs.Lookup.{child_of, get_node}
use go_apk.MemFs.Entries.{Unix, mkdir, mknod, symlink, link, remove_entry, remove, mkdir_all}
use go_apk.MemFs.Attributes.{chmod, chown, attributed, set_xattr, remove_xattr}
use go_apk.MemFs.Files.{
  Flags, open_node, MemFile, new_mem_file, open_file, written, write_at, write,
}
use go_apk.MemFs.Valid.{
  IsValid, set_node-IsValid, Grown, Grown-refl, Grown-trans, Grown-bind, set_node-Grown,
}
use go_apk.MemFs.Resolution.{Result-cases, get_node-Extends}
use go_apk.MemFs.Growth.{found-Grown, mkdir-Grown, mknod-Grown, symlink-Grown, link-Grown}
use go_apk.MemFs.Directories.{mkdir_all-Grown}
use go_apk.MemFs.Opening.{open_node_lem}

module _ (fs : MemFs) (v : IsValid fs) where
  chown-Grown : (path : Bytes) (uid gid : ℤ) → Grown fs (chown path uid gid fs).0
  unfolding chown
  chown-Grown path uid gid =
      found-Grown fs path _ v λ i h e. set_node-Grown fs i _ v refl refl refl refl

  attributed-Grown :
      {B : Type 0} (path : Bytes) (f : NodeId → Op B)
      → ((i : NodeId) → Grown fs (f i fs).0)
      → Grown fs (((λ s. (s, attributed s path)) >>= f) fs).0
  attributed-Grown path f h = Grown-bind fs (fs, attributed fs path) f (Grown-refl fs v) λ i e. h i

  pub set_xattr-Grown : (path attr value : Bytes) → Grown fs (set_xattr path attr value fs).0
  unfolding set_xattr
  set_xattr-Grown path attr value =
      attributed-Grown path _ λ i. set_node-Grown fs i _ v refl refl refl refl

  remove_xattr-Grown : (path attr : Bytes) → Grown fs (remove_xattr path attr fs).0
  unfolding remove_xattr
  remove_xattr-Grown path attr = attributed-Grown path _ λ i.
      elim (Option-cases (lookup attr (fs.node i).xattrs)) [
        | inl e ↦ rw e (Grown-refl fs v)
        | inr (value, e) ↦ rw e (set_node-Grown fs i _ v refl refl refl refl)
      ]

  new_mem_file-Grown : (flag : Flags) (i : NodeId) → Grown fs (new_mem_file flag i fs).0
  unfolding new_mem_file
  new_mem_file-Grown flag i = elim (Bool-cases flag.truncate) [
    | inl f ↦ rw f (set_node-Grown fs i _ v refl refl refl refl)
    | inr f ↦ rw f (Grown-refl fs v)
  ]

  write_at-Grown : (i : NodeId) (f : MemFile) (p : Bytes) (o : ℤ) → Grown fs (write_at i f p o fs).0
  unfolding write_at
  write_at-Grown i f p (negsuc n) = Grown-refl fs v
  write_at-Grown i f p (pos n) = elim (Result-cases (written (fs.node i).contents n p)) [
    | inr (x, e) ↦ rw (e, write_at) (Grown-refl fs v)
    | inl (contents, e) ↦ rw (e, write_at) (set_node-Grown fs i _ v refl refl refl refl)
  ]

  write-Grown : (f : MemFile) (p : Bytes) → Grown fs (write f p fs).0
  unfolding write
  write-Grown f p = go f.node
    where
      go :
          (n : Option NodeId)
          → Grown fs
              (elim n as (λ x. MemFs × Result MemFile) [
                | none ↦ (fs, err closed)
                | some i ↦
                    if f.open_mode.append && f.open_mode.read_write && f.open_mode.write_only
                    then (fs, err not_writable)
                    else write_at i f p f.offset fs
              ]).0
      go none = Grown-refl fs v
      go (some i) =
          elim (Bool-cases
            (f.open_mode.append && f.open_mode.read_write && f.open_mode.write_only)) [
              | inl e ↦ rw e (Grown-refl fs v)
              | inr e ↦ rw e (write_at-Grown i f p f.offset)
            ]

  chmod-IsValid : (path : Bytes) (perm : Mode) → IsValid (chmod path perm fs).0
  unfolding chmod
  chmod-IsValid path perm = elim (Result-cases (get_node fs path)) [
    | inr (x, e) ↦ rw e v
    | inl (i, e) ↦ rw e (set_node-IsValid fs i _ v refl refl)
  ]

  remove_entry-IsValid : (i : NodeId) (name : Bytes) → IsValid (remove_entry i name fs).0
  unfolding remove_entry
  remove_entry-IsValid i name = elim (Option-cases (child_of fs i name)) [
    | inl e ↦ rw (e, remove_entry) v
    | inr (c, e) ↦
        let counted =
          set_node fs c (record (fs.node c) { link_count = (fs.node c).link_count - 1 }) in
        let w =
          set_node-IsValid fs c (record (fs.node c) { link_count = (fs.node c).link_count - 1 }) v
            refl refl in
        rw (e, remove_entry)
          (record {
            root_allocated = v.root_allocated;
            root_dir = ground (arith, w.root_dir);
            allocated = λ j d l k a b. elim (Option-cases (counted.node i).children) [
              | inl f ↦ ground (arith, w.allocated j d l k)
              | inr (m, f) ↦
                  ground (arith, lookup-delete name k m, w.allocated i d m k, w.allocated j d l k)
            ];
            with_map = λ j a b. ground (arith, w.with_map j, w.with_map i);
          })
  ]

  remove-IsValid : (name : Bytes) → IsValid (remove name fs).0
  unfolding remove
  remove-IsValid name = elim (Result-cases (get_node fs (dir name))) [
    | inr (x, e) ↦ rw e v
    | inl (i, e) ↦ rw e (remove_entry-IsValid i (base name))
  ]

open_file-Grown :
    (fs : MemFs) (name : Bytes) (flag : Flags) (perm : Mode)
    → IsValid fs
    → Grown fs (open_file name flag perm fs).0
unfolding open_file
open_file-Grown fs name flag perm v =
    let g = (open_node_lem max_links name flag flag perm perm fs v).0 in
    Grown-bind fs (open_node max_links name flag perm fs) (new_mem_file flag) g
      λ i e. new_mem_file-Grown _ g.valid flag i

-- The operations that take nothing away, whether they succeed or fail.
pub data Growth (fs fs' : MemFs) : Type 0 where
  by_mkdir : (path : Bytes) (perms : Mode) → fs' ≡ (mkdir path perms fs).0 → Growth fs fs'
  by_mkdir_all : (path : Bytes) (perm : Mode) → fs' ≡ (mkdir_all path perm fs).0 → Growth fs fs'
  by_mknod :
      (unix : Unix) (path : Bytes) (mode : Mode) (dev : ℕ)
      → fs' ≡ (mknod unix path mode dev fs).0
      → Growth fs fs'
  by_symlink : (old_name new_name : Bytes) → fs' ≡ (symlink old_name new_name fs).0 → Growth fs fs'
  by_link : (old_name new_name : Bytes) → fs' ≡ (link old_name new_name fs).0 → Growth fs fs'
  by_chown : (path : Bytes) (uid gid : ℤ) → fs' ≡ (chown path uid gid fs).0 → Growth fs fs'
  by_set_xattr : (path attr value : Bytes) → fs' ≡ (set_xattr path attr value fs).0 → Growth fs fs'
  by_remove_xattr : (path attr : Bytes) → fs' ≡ (remove_xattr path attr fs).0 → Growth fs fs'
  by_open_file :
      (name : Bytes) (flag : Flags) (perm : Mode)
      → fs' ≡ (open_file name flag perm fs).0
      → Growth fs fs'
  by_write : (f : MemFile) (p : Bytes) → fs' ≡ (write f p fs).0 → Growth fs fs'

-- All operations.
pub data Step (fs fs' : MemFs) : Type 0 where
  grows : Growth fs fs' → Step fs fs'
  by_remove : (name : Bytes) → fs' ≡ (remove name fs).0 → Step fs fs'
  by_chmod : (path : Bytes) (perm : Mode) → fs' ≡ (chmod path perm fs).0 → Step fs fs'

pub data Reach (fs : MemFs) : MemFs → Type 0 where
  here : Reach fs fs
  next : {s t : MemFs} → Reach fs s → Step s t → Reach fs t

pub data Growths (fs : MemFs) : MemFs → Type 0 where
  here : Growths fs fs
  next : {s t : MemFs} → Growths fs s → Growth s t → Growths fs t

Growth-Grown : {fs fs' : MemFs} → IsValid fs → Growth fs fs' → Grown fs fs'
Growth-Grown {fs} v (by_mkdir path perms e) = rw e (mkdir-Grown fs v path perms)
Growth-Grown {fs} v (by_mkdir_all path perm e) = rw e (mkdir_all-Grown path perm fs v)
Growth-Grown {fs} v (by_mknod unix path mode dev e) = rw e (mknod-Grown fs v unix path mode dev)
Growth-Grown {fs} v (by_symlink a b e) = rw e (symlink-Grown fs v a b)
Growth-Grown {fs} v (by_link a b e) = rw e (link-Grown fs v a b)
Growth-Grown {fs} v (by_chown path uid gid e) = rw e (chown-Grown fs v path uid gid)
Growth-Grown {fs} v (by_set_xattr path attr value e) = rw e (set_xattr-Grown fs v path attr value)
Growth-Grown {fs} v (by_remove_xattr path attr e) = rw e (remove_xattr-Grown fs v path attr)
Growth-Grown {fs} v (by_open_file name flag perm e) = rw e (open_file-Grown fs name flag perm v)
Growth-Grown {fs} v (by_write f p e) = rw e (write-Grown fs v f p)

Step-IsValid : {fs fs' : MemFs} → IsValid fs → Step fs fs' → IsValid fs'
Step-IsValid {fs} v (grows g) = (Growth-Grown v g).valid
Step-IsValid {fs} v (by_remove name e) = rw e (remove-IsValid fs v name)
Step-IsValid {fs} v (by_chmod path perm e) = rw e (chmod-IsValid fs v path perm)

new_mem_fs-IsValid : IsValid new_mem_fs
unfolding new_mem_fs lookup
new_mem_fs-IsValid = record {
  root_allocated = omega arith;
  root_dir = refl;
  allocated = λ i c m k e f. ground arith;
  with_map = λ i d e. absurd (cc e);
}

pub IsValid-Reach : {fs fs' : MemFs} → IsValid fs → Reach fs fs' → IsValid fs'
IsValid-Reach v here = v
IsValid-Reach v (next r st) = Step-IsValid (IsValid-Reach v r) st

-- Whatever sequence of operations is done to a new file system, failing ones included, every entry
-- names a node that is allocated, every directory has a map of entries, and the tree is a directory.
pub Reach-IsValid : {fs : MemFs} → Reach new_mem_fs fs → IsValid fs
Reach-IsValid r = IsValid-Reach new_mem_fs-IsValid r

pub Growths-Grown : {fs fs' : MemFs} → IsValid fs → Growths fs fs' → Grown fs fs'
Growths-Grown {fs} v here = Grown-refl fs v
Growths-Grown v (next r g) =
    let h = Growths-Grown v r in Grown-trans _ _ _ h (Growth-Grown h.valid g)

-- A path that leads to a node leads to the same node after any sequence of operations other than
-- `Remove` and `Chmod`.
pub get_node-Growths :
    {fs fs' : MemFs} (path : Bytes) (i : NodeId)
    → IsValid fs
    → Growths fs fs'
    → get_node fs path ≡ ok i
    → get_node fs' path ≡ ok i
get_node-Growths {fs} {fs'} path i v g e =
    get_node-Extends fs fs' path i v (Growths-Grown v g).extends e
