-- ===== src/MemFs.antt =====
-- pkg/fs/memfs.go: the nodes of the file system in memory. Pointers are numbers, and the whole of the
-- nodes is the state. Times and locks are left out.
pub mod Lookup
pub mod Entries
pub mod Attributes
pub mod Files
pub mod Valid
pub mod Resolution
pub mod Growth
pub mod Directories
pub mod Opening
pub mod Contents
pub mod Reach
pub mod Laws
pub mod Tests
use Prim.Native.Nat.{suc}
use mathlib.Core.Bool.{◌||◌}
use go_apk.Base.{ℕ, Bool, true, false, List, [], ◌∷◌, Option, none, some, ◌==◌, if◌then◌else◌}
use go_apk.Base.Bytes.{Bytes, codes}
use go_apk.Base.Decimal.{ℤ, pos}
use go_apk.Base.Maps.{Map}

-- `fs.FileMode`: the bits of `fs.ModeType` one by one, and the other bits as a number.
pub record Mode : Type 0 where
  pub is_dir : Bool
  pub is_symlink : Bool
  pub is_device : Bool
  pub is_char_device : Bool
  pub is_named_pipe : Bool
  pub is_socket : Bool
  pub is_irregular : Bool
  pub bits : ℕ

abbrev pub permissions : ℕ → Mode
permissions bits = record {
  is_dir = false;
  is_symlink = false;
  is_device = false;
  is_char_device = false;
  is_named_pipe = false;
  is_socket = false;
  is_irregular = false;
  bits = bits;
}

-- `perm | (mode & os.ModeType)`.
abbrev pub keep_type : Mode → Mode → Mode
keep_type perm mode = record perm {
  is_dir = perm.is_dir || mode.is_dir;
  is_symlink = perm.is_symlink || mode.is_symlink;
  is_device = perm.is_device || mode.is_device;
  is_char_device = perm.is_char_device || mode.is_char_device;
  is_named_pipe = perm.is_named_pipe || mode.is_named_pipe;
  is_socket = perm.is_socket || mode.is_socket;
  is_irregular = perm.is_irregular || mode.is_irregular;
}

-- A pointer to a node.
abbrev pub NodeId : Type 0
NodeId = ℕ

-- `node`: `children` is `none` where the map is nil.
pub record Node : Type 0 where
  pub mode : Mode
  pub uid : ℤ
  pub gid : ℤ
  pub dir : Bool
  pub name : Bytes
  pub contents : Bytes
  pub link_target : Bytes
  pub link_count : ℕ
  pub major : ℕ
  pub minor : ℕ
  pub children : Option (Map NodeId)
  pub xattrs : Map Bytes

-- `memFS`: the nodes below `next` are allocated, and the first of them is the tree.
pub record MemFs : Type 0 where
  pub next : ℕ
  pub node : NodeId → Node

pub data Error : Type 0 where
  not_exist exist not_directory is_directory too_many_links not_device not_link : Error
  closed end_of_file invalid_whence not_writable panicked : Error

pub data Result {ℓ} (A : Type ℓ) : Type ℓ where
  ok : A → Result A
  err : Error → Result A

-- An operation leaves a file system, also where it fails.
abbrev pub Op {ℓ} : Type ℓ → Type ℓ
Op A = MemFs → MemFs × Result A

module _ {ℓ κ} {A : Type ℓ} {B : Type κ} where
  abbrev pub and_then : MemFs × Result A → (A → Op B) → MemFs × Result B
  and_then (fs, ok a) f = f a fs
  and_then (fs, err e) f = (fs, err e)

  infixl 5 ◌>>=◌
  abbrev pub ◌>>=◌ : Op A → (A → Op B) → Op B
  m >>= f = λ fs. and_then (m fs) f

abbrev pub update : (NodeId → Node) → NodeId → Node → NodeId → Node
update f i n j = if i == j then n else f j

-- Assigning to a node's fields.
abbrev pub set_node : MemFs → NodeId → Node → MemFs
set_node fs i n = record fs { node = update fs.node i n }

-- `&node{...}` with a name and a mode, and the zero values of the other fields.
abbrev pub new_node : Bytes → Mode → Node
new_node name mode = record {
  mode = mode;
  uid = pos 0;
  gid = pos 0;
  dir = false;
  name = name;
  contents = [];
  link_target = [];
  link_count = 0;
  major = 0;
  minor = 0;
  children = none;
  xattrs = [];
}

abbrev pub new_dir : Bytes → Mode → Node
new_dir name perms = record (new_node name (record perms { is_dir = true })) {
  dir = true;
  children = some [];
}

abbrev pub root : NodeId
root = 0

-- `NewMemFS`; 0o755 is 493.
unfoldable pub new_mem_fs : MemFs
new_mem_fs = record { next = 1; node = λ i. new_dir (codes "/") (permissions 493) }

-- `pathSep` and `maxLinks`.
abbrev pub path_sep : ℕ
path_sep = b'/'

abbrev pub max_links : ℕ
max_links = 40
