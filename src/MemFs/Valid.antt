-- ===== src/MemFs/Valid.antt =====
-- pkg/fs/memfs.go: what holds of the nodes whatever was done to the file system.
use Prim.Native.Nat.{◌<◌, ◌≤◌}
use go_apk.Base.{ℕ, true, none, some, ◌≡◌, ◌≢◌, ◌∙◌, refl, arith}
use go_apk.Base.Bytes.{Bytes}
use go_apk.Base.Maps.{Map, lookup}
use go_apk.MemFs.{Node, NodeId, MemFs, Result, ok, err, Op, and_then, set_node, root}
use go_apk.MemFs.Lookup.{child_of}

-- Every entry of every node is allocated, a directory has a map of entries, and the tree is one.
pub record IsValid (fs : MemFs) : Type 0 where
  pub root_allocated : root < fs.next
  pub root_dir : (fs.node root).dir ≡ true
  pub allocated :
      (i c : NodeId) (m : Map NodeId) (k : Bytes)
      → (fs.node i).children ≡ some m
      → lookup k m ≡ some c
      → c < fs.next
  pub with_map : (i : NodeId) → (fs.node i).dir ≡ true → (fs.node i).children ≢ none

-- A node whose kind and entries are kept.
pub SameEntries : Node → Node → Type 0
SameEntries n n' = (n.dir ≡ n'.dir) × (n.children ≡ n'.children)

module _ (fs : MemFs) (i : NodeId) (n : Node) where
  pub set_node-IsValid :
      IsValid fs
      → (fs.node i).dir ≡ n.dir
      → (fs.node i).children ≡ n.children
      → IsValid (set_node fs i n)
  set_node-IsValid v d e = record {
    root_allocated = v.root_allocated;
    root_dir = ground (arith, v.root_dir);
    allocated = λ j c m k f g. ground (arith, v.allocated j c m k);
    with_map = λ j f g. ground (arith, v.with_map j);
  }

-- Nothing that is there goes: nodes keep their kind, and directories their entries.
pub record Extends (fs fs' : MemFs) : Type 0 where
  pub grown : fs.next ≤ fs'.next
  pub same_link :
      (i : NodeId) → i < fs.next → (fs'.node i).mode.is_symlink ≡ (fs.node i).mode.is_symlink
  pub same_target : (i : NodeId) → i < fs.next → (fs'.node i).link_target ≡ (fs.node i).link_target
  pub same_dir : (i : NodeId) → i < fs.next → (fs'.node i).dir ≡ (fs.node i).dir
  pub kept :
      (i c : NodeId) (k : Bytes)
      → i < fs.next
      → child_of fs i k ≡ some c
      → child_of fs' i k ≡ some c

pub Extends-refl : (fs : MemFs) → Extends fs fs
Extends-refl fs = record {
  grown = omega arith;
  same_link = λ i h. refl;
  same_target = λ i h. refl;
  same_dir = λ i h. refl;
  kept = λ i c k h e. e;
}

pub Extends-trans : (a b c : MemFs) → Extends a b → Extends b c → Extends a c
Extends-trans a b c h k =
    let within = λ (i : NodeId) (n : i < a.next). let g = h.grown in the_lt i a.next b.next n g in
    record {
      grown = omega (arith, h.grown, k.grown);
      same_link = λ i n. k.same_link i (within i n) ∙ h.same_link i n;
      same_target = λ i n. k.same_target i (within i n) ∙ h.same_target i n;
      same_dir = λ i n. k.same_dir i (within i n) ∙ h.same_dir i n;
      kept = λ i d s n e. k.kept i d s (within i n) (h.kept i d s n e);
    }
  where
    the_lt : (i m n : ℕ) → i < m → m ≤ n → i < n
    the_lt i m n p q = omega arith

-- The state that an operation leaves is valid and has all that was there.
pub record Grown (fs fs' : MemFs) : Type 0 where
  pub valid : IsValid fs'
  pub extends : Extends fs fs'

pub Grown-refl : (fs : MemFs) → IsValid fs → Grown fs fs
Grown-refl fs v = record { valid = v; extends = Extends-refl fs }

pub Grown-trans : (a b c : MemFs) → Grown a b → Grown b c → Grown a c
Grown-trans a b c h k = record {
  valid = k.valid;
  extends = Extends-trans a b c h.extends k.extends;
}

-- Fields that no path depends on may change.
pub set_node-Grown :
    (fs : MemFs) (i : NodeId) (n : Node)
    → IsValid fs
    → (fs.node i).dir ≡ n.dir
    → (fs.node i).children ≡ n.children
    → (fs.node i).mode.is_symlink ≡ n.mode.is_symlink
    → (fs.node i).link_target ≡ n.link_target
    → Grown fs (set_node fs i n)
unfolding child_of
set_node-Grown fs i n v d e l t = record {
  valid = set_node-IsValid fs i n v d e;
  extends = record {
    grown = omega arith;
    same_link = λ j h. ground arith;
    same_target = λ j h. ground arith;
    same_dir = λ j h. ground arith;
    kept = λ j c k h f. ground arith;
  };
}

-- A chain of operations.
pub Grown-bind {ℓ κ} :
    {A : Type ℓ} {B : Type κ} (fs : MemFs) (m : MemFs × Result A) (f : A → Op B)
    → Grown fs m.0
    → ((a : A) → m.1 ≡ ok a → Grown m.0 (f a m.0).0)
    → Grown fs (and_then m f).0
Grown-bind fs (s, ok a) f h k = Grown-trans fs s _ h (k a refl)
Grown-bind fs (s, err e) f h k = h
