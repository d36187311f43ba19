-- ===== src/MemFs/Files.antt =====
-- pkg/fs/memfs.go: `openFile`, and the open files.
use Prim.Native.Nat.{zero, suc, ◌+◌, ◌-◌, ◌^◌, ◌%◌}
use mathlib.Core.Bool.{◌&&◌}
use go_apk.Base.{
  ℕ, Bool, true, false, [], ◌∷◌, ◌++◌, Option, none, some, ltb, leb, if◌then◌else◌, is_nil, length,
}
use go_apk.Base.Bytes.{Bytes}
use go_apk.Base.Decimal.{ℤ, pos, negsuc, max_i64}
use go_apk.Base.Paths.{dir, base}
use go_apk.MemFs.{
  Mode, permissions, NodeId, MemFs, not_exist, not_directory, is_directory, too_many_links, closed,
  end_of_file, invalid_whence, not_writable, panicked, Result, ok, err, Op, ◌>>=◌, set_node,
  new_node, max_links,
}
use go_apk.MemFs.Lookup.{child_of, target_path}
use go_apk.MemFs.Entries.{found, add_node, with_children}

-- The flags of package os that the code looks at; it does not look at `O_EXCL`.
pub record Flags : Type 0 where
  pub create : Bool
  pub truncate : Bool
  pub append : Bool
  pub write_only : Bool
  pub read_write : Bool

abbrev pub read_only : Flags
read_only = record {
  create = false;
  truncate = false;
  append = false;
  write_only = false;
  read_write = false;
}

-- The entry of a directory that is opened; it is made if that is asked for.
unfoldable pub open_entry : Flags → Mode → NodeId → Bytes → Op NodeId
unfolding child_of add_node
open_entry flag perm i name fs = elim (child_of fs i name) [
  | none ↦ if flag.create then add_node i name (new_node name perm) fs else (fs, err not_exist)
  | some c ↦ if (fs.node c).dir then (fs, err is_directory) else (fs, ok c)
]

-- The directory of the file, checked, with its map of children.
unfoldable pub open_parent : Bytes → Op NodeId
open_parent parent = found parent >>= λ i fs.
    if (fs.node i).dir then (with_children i fs, ok i) else (fs, err not_directory)

-- The node of that name in the directory at the path, with no link followed.
unfoldable pub open_step : Bytes → Flags → Mode → Op NodeId
open_step name flag perm = open_parent (dir name) >>= λ i. open_entry flag perm i (base name)

-- A file that is a link is opened at its target, by `follow`.
unfoldable pub open_target : (Bytes → Op NodeId) → Bytes → NodeId → Op NodeId
open_target follow parent c fs =
    if (fs.node c).mode.is_symlink
    then follow (target_path parent (fs.node c).link_target) fs
    else (fs, ok c)

-- `openFile` up to the node: `links` is how many links may still be followed.
unfoldable pub open_node : ℕ → Bytes → Flags → Mode → Op NodeId
open_node zero name flag perm =
    open_step name flag perm >>= open_target (λ target fs. (fs, err too_many_links)) (dir name)
open_node (suc links) name flag perm =
    open_step name flag perm >>= open_target (λ target. open_node links target flag perm) (dir name)

-- `memFile`: the node is `none` in a file that is closed. The name is left out: it is only read by
-- `Stat`. The offset is an `int64`.
pub record MemFile : Type 0 where
  pub node : Option NodeId
  pub offset : ℤ
  pub open_mode : Flags

-- `newMemFile`.
unfoldable pub new_mem_file : Flags → NodeId → Op MemFile
new_mem_file flag i fs = (
  if flag.truncate then set_node fs i (record (fs.node i) { contents = [] }) else fs,
  ok (record {
    node = some i;
    offset = pos (if flag.append then length (fs.node i).contents else 0);
    open_mode = flag;
  }),
)

-- `OpenFile`.
unfoldable pub open_file : Bytes → Flags → Mode → Op MemFile
open_file name flag perm = open_node max_links name flag perm >>= new_mem_file flag

-- `Open` and `OpenReaderAt`; 0o644 is 420.
unfoldable pub open_to_read : Bytes → Op MemFile
open_to_read name = open_file name read_only (permissions 420)

-- `Create`; 0o666 is 438.
unfoldable pub create_file : Bytes → Op MemFile
create_file name =
    open_file name (record read_only { create = true; truncate = true; read_write = true })
      (permissions 438)

-- `Close`.
unfoldable pub close : MemFile → Result MemFile
close f = elim f.node [ none ↦ err closed | some i ↦ ok (record f { node = none }) ]

abbrev pub take : ℕ → Bytes → Bytes
take zero s = []
take (suc n) [] = []
take (suc n) (c ∷ s) = c ∷ take n s

abbrev pub drop : ℕ → Bytes → Bytes
drop zero s = s
drop (suc n) [] = []
drop (suc n) (c ∷ s) = drop n s

-- What a buffer of a size is filled with from an offset on; a negative offset is out of range.
unfoldable pub bytes_at : Bytes → ℤ → ℕ → Result Bytes
bytes_at contents (negsuc n) size = err panicked
bytes_at contents (pos n) size =
    if leb (length contents) n then err end_of_file else ok (take size (drop n contents))

-- `Read` into a buffer of a size: the bytes that are read.
unfoldable pub read : MemFs → MemFile → ℕ → Result (Bytes × MemFile)
unfolding bytes_at
read fs f size = elim f.node [
  | none ↦ err closed
  | some i ↦ elim (bytes_at (fs.node i).contents f.offset size) [
    | err e ↦ err e
    | ok b ↦ ok (
      b,
      record f { offset = elim f.offset [ pos n ↦ pos (n + length b) | negsuc n ↦ negsuc n ] },
    )
  ]
]

-- `ReadAt`.
unfoldable pub read_at : MemFs → MemFile → ℕ → ℤ → Result Bytes
unfolding bytes_at
read_at fs f size off = elim f.node [
  | none ↦ err closed
  | some i ↦ bytes_at (fs.node i).contents off size
]

-- The bits of an `int64`.
abbrev pub residue : ℤ → ℕ
residue (pos n) = n % 2 ^ 64
residue (negsuc n) = 2 ^ 64 - 1 - n % 2 ^ 64

-- The sum of two numbers of type `int64`, which wraps around.
unfoldable pub add_i64 : ℤ → ℤ → ℤ
add_i64 a b =
    let sum = (residue a + residue b) % 2 ^ 64 in
    if leb sum max_i64 then pos sum else negsuc (2 ^ 64 - 1 - sum)

pub data Whence : Type 0 where
  seek_start seek_current seek_end other_whence : Whence

abbrev pub seek_from : Bytes → ℤ → Whence → ℤ → Result ℤ
seek_from contents now seek_start offset = ok offset
seek_from contents now seek_current offset = ok (add_i64 now offset)
seek_from contents now seek_end offset = ok (add_i64 (pos (length contents)) offset)
seek_from contents now other_whence offset = err invalid_whence

-- `Seek`.
unfoldable pub seek : MemFs → MemFile → ℤ → Whence → Result MemFile
seek fs f offset whence = elim f.node [
  | none ↦ err closed
  | some i ↦ elim (seek_from (fs.node i).contents f.offset whence offset) [
    | err e ↦ err e
    | ok o ↦ ok (record f { offset = o })
  ]
]

-- The contents after a write at an offset. Behind the end Go slices beyond the length of the data,
-- which panics unless the capacity happens to reach as far: the model always panics.
unfoldable pub written : Bytes → ℕ → Bytes → Result Bytes
written contents n p =
    if ltb (length contents) n
    then err panicked
    else if ltb (length contents) (n + length p)
    then ok (take n contents ++ p)
    else ok (take n contents ++ (p ++ drop (n + length p) contents))

-- The node is written at the offset; a negative one is out of range.
unfoldable pub write_at : NodeId → MemFile → Bytes → ℤ → Op MemFile
unfolding written
write_at i f p (negsuc n) fs = (fs, err panicked)
write_at i f p (pos n) fs = elim (written (fs.node i).contents n p) [
  | err e ↦ (fs, err e)
  | ok contents ↦ (
    set_node fs i (record (fs.node i) { contents = contents }),
    ok (record f { offset = pos (n + length p) }),
  )
]

-- `Write`: it refuses only a file whose mode has all three flags.
unfoldable pub write : MemFile → Bytes → Op MemFile
unfolding write_at
write f p fs = elim f.node [
  | none ↦ (fs, err closed)
  | some i ↦
      if f.open_mode.append && f.open_mode.read_write && f.open_mode.write_only
      then (fs, err not_writable)
      else write_at i f p f.offset fs
]

-- `bytes.MinRead`.
abbrev pub min_read : ℕ
min_read = 512

-- `io.Copy` into a buffer: it reads up to the end of the file, in at most `rounds` calls of `Read`.
unfoldable pub copy_all : ℕ → MemFs → MemFile → Bytes → Option (Result Bytes)
copy_all zero fs f b = none
copy_all (suc rounds) fs f b = elim (read fs f min_read) [
  | err end_of_file ↦ some (ok b)
  | err e ↦ some (err e)
  | ok (p, f') ↦ copy_all rounds fs f' (b ++ p)
]

abbrev pub copy_opened : ℕ → MemFs × Result MemFile → Option (Result Bytes)
copy_opened rounds (fs, err e) = some (err e)
copy_opened rounds (fs, ok f) = copy_all rounds fs f []

-- `ReadFile`; `none` is that the rounds ran out.
unfoldable pub read_file : ℕ → MemFs → Bytes → Option (Result Bytes)
read_file rounds fs name = copy_opened rounds (open_to_read name fs)

-- `WriteFile`: a buffer that is not empty is written in one call of `Write`.
unfoldable pub write_file : Bytes → Bytes → Mode → Op (Unit {0})
write_file name b mode =
    open_file name (record read_only { create = true; truncate = true; read_write = true }) mode
    >>= λ f. (λ fs. if is_nil b then (fs, ok f) else write f b fs) >>= λ f' fs. (fs, ok tt)
