-- ===== src/MemFs/Contents.antt =====
-- pkg/fs/memfs.go: `ReadFile` reads what `WriteFile` wrote.
use Prim.Native.Nat.{zero, suc, ◌+◌, ◌-◌, ◌<◌, ◌≤◌}
use mathlib.Core.List.{append-nil, append_assoc}
use go_apk.Base.{
  ℕ, true, [], ◌∷◌, ◌++◌, some, ◌≡◌, ◌∙◌, refl, inl, inr, arith, Bool-cases, if◌then◌else◌, is_nil,
  length, leb,
}
use go_apk.Base.Bytes.{Bytes}
use go_apk.Base.Decimal.{pos}
use go_apk.MemFs.{Mode, permissions, NodeId, MemFs, ok, Op, ◌>>=◌, set_node, max_links}
use go_apk.MemFs.Files.{
  Flags, read_only, open_node, MemFile, new_mem_file, open_file, open_to_read, take, drop, read,
  written, write, min_read, copy_all, read_file, write_file,
}
use go_apk.MemFs.Valid.{IsValid, Grown, Grown-trans, set_node-Grown}
use go_apk.MemFs.Opening.{open_node_lem}

take-append-drop : (n : ℕ) (s : Bytes) → take n s ++ drop n s ≡ s
take-append-drop zero s = refl
take-append-drop (suc n) [] = refl
take-append-drop (suc n) (c ∷ s) = ground (arith, take-append-drop n s)

drop-length-take : (n : ℕ) (s : Bytes) → drop (length (take n s)) s ≡ drop n s
drop-length-take zero s = refl
drop-length-take (suc n) [] = refl
drop-length-take (suc n) (c ∷ s) = drop-length-take n s

drop-nil : (n : ℕ) → drop n [] ≡ []
drop-nil zero = refl
drop-nil (suc n) = refl

drop-add : (n m : ℕ) (s : Bytes) → drop (n + m) s ≡ drop m (drop n s)
drop-add zero m s = ground arith
drop-add (suc n) m [] = ground (arith, drop-nil m, drop-nil (suc n + m))
drop-add (suc n) m (c ∷ s) =
    let shifted : suc n + m ≡ suc (n + m) = omega arith in rw shifted (drop-add n m s)

length-drop : (n : ℕ) (s : Bytes) → length (drop n s) ≡ length s - n
length-drop zero s = omega arith
length-drop (suc n) [] = omega arith
length-drop (suc n) (c ∷ s) = omega (arith, length-drop n s)

length-take_pos : (n : ℕ) (s : Bytes) → 0 < n → 0 < length s → 0 < length (take n s)
length-take_pos zero s h k = absurd (omega arith)
length-take_pos (suc n) [] h k = absurd (omega arith)
length-take_pos (suc n) (c ∷ s) h k = omega arith

length-take-le : (n : ℕ) (s : Bytes) → length (take n s) ≤ length s
length-take-le zero s = omega arith
length-take-le (suc n) [] = omega arith
length-take-le (suc n) (c ∷ s) = omega (arith, length-take-le n s)

drop-all : (n : ℕ) (s : Bytes) → length s ≤ n → drop n s ≡ []
drop-all zero [] h = refl
drop-all zero (c ∷ s) h = absurd (omega arith)
drop-all (suc n) [] h = refl
drop-all (suc n) (c ∷ s) h = drop-all n s (omega arith)

abbrev pub at : NodeId → ℕ → MemFile
at i n = record { node = some i; offset = pos n; open_mode = read_only }

-- What a round reads, and what is left, is what was left before.
read-rest :
    (n : ℕ) (s : Bytes) → let p = take min_read (drop n s) in p ++ drop (n + length p) s ≡ drop n s
read-rest n s =
    rw (drop-add n (length (take min_read (drop n s))) s, drop-length-take min_read (drop n s))
      (take-append-drop min_read (drop n s))

-- The file is read from the offset to its end, with a round for each byte and one for the end.
pub copy_all_lem :
    (rounds : ℕ) (fs : MemFs) (i : NodeId) (n : ℕ) (b : Bytes)
    → n ≤ length (fs.node i).contents
    → length (fs.node i).contents < n + rounds
    → copy_all rounds fs (at i n) b ≡ some (ok (b ++ drop n (fs.node i).contents))
unfolding copy_all read
copy_all_lem zero fs i n b l h = absurd (omega arith)
copy_all_lem (suc rounds) fs i n b l h =
    let s = (fs.node i).contents in
    let p = take min_read (drop n s) in
    elim (Bool-cases (leb (length s) n)) [
      | inl e ↦ rw (e, copy_all) (rw (drop-all n s (ground arith), append-nil b) refl)
      | inr e ↦
          let some_byte =
            length-take_pos min_read (drop n s) (omega arith) (ground (arith, length-drop n s)) in
          let within = length-take-le min_read (drop n s) in
          let left = length-drop n s in
          let more : n < length s = ground arith in
          rw (e, copy_all)
            (copy_all_lem rounds fs i (n + length p) (b ++ p) (omega arith) (omega arith)
              ∙ rw (append_assoc b p (drop (n + length p) s), read-rest n s) refl)
    ]

-- What the flags of `WriteFile` are.
abbrev pub writing : Flags
writing = record read_only { create = true; truncate = true; read_write = true }

-- What `WriteFile` does with the node that it opened.
abbrev put : Bytes → NodeId → Op (Unit {0})
put b c = new_mem_file writing c >>= λ f.
    (λ fs. if is_nil b then (fs, ok f) else write f b fs) >>= λ f' fs. (fs, ok tt)

abbrev to_write : NodeId → ℕ → MemFile
to_write c n = record { node = some c; offset = pos n; open_mode = writing }

-- A write into an empty file.
write_empty :
    (t : MemFs) (c : NodeId) (x : ℕ) (b : Bytes)
    → (t.node c).contents ≡ []
    → write (to_write c 0) (x ∷ b) t ≡ (
      set_node t c (record (t.node c) { contents = x ∷ b }),
      ok (to_write c (0 + length (x ∷ b))),
    )
unfolding write written
write_empty t c x b h = ground arith

put_lem :
    (s : MemFs) (c : NodeId) (b : Bytes)
    → IsValid s
    → ((put b c s).1 ≡ ok tt) × Grown s (put b c s).0 × (((put b c s).0.node c).contents ≡ b)
unfolding new_mem_file
put_lem s c [] v = (
  refl,
  set_node-Grown s c (record (s.node c) { contents = [] }) v refl refl refl refl,
  ground arith,
)
put_lem s c (x ∷ b) v =
    let once = record (s.node c) { contents = [] } in
    let g = set_node-Grown s c once v refl refl refl refl in
    let t = set_node s c once in
    let k =
      set_node-Grown t c (record (t.node c) { contents = x ∷ b }) g.valid refl refl refl refl in
    rw (write_empty t c x b (ground arith)) (refl, Grown-trans s t _ g k, ground arith)

write_opened :
    (fs s : MemFs) (name b : Bytes) (mode : Mode) (c : NodeId)
    → open_node max_links name writing mode fs ≡ (s, ok c)
    → write_file name b mode fs ≡ put b c s
unfolding write_file open_file
write_opened fs s name b mode c e = rw e refl

pub open_opened :
    (t : MemFs) (name : Bytes) (c : NodeId)
    → open_node max_links name read_only (permissions 420) t ≡ (t, ok c)
    → open_to_read name t ≡ (t, ok (at c 0))
unfolding open_to_read open_file new_mem_file
open_opened t name c e = rw e refl

pub read_opened :
    (t : MemFs) (name : Bytes) (c : NodeId) (rounds : ℕ)
    → open_node max_links name read_only (permissions 420) t ≡ (t, ok c)
    → length (t.node c).contents < rounds
    → read_file rounds t name ≡ some (ok (t.node c).contents)
unfolding read_file
read_opened t name c rounds e h =
    rw (open_opened t name c e) (copy_all_lem rounds t c 0 [] (omega arith) (omega arith))

-- Where `WriteFile` can open the file it succeeds, and with a round for each byte that was written
-- and one more, `ReadFile` of the same name then returns what was written.
pub read_file-write_file :
    (fs : MemFs) (name b : Bytes) (mode : Mode) (c : NodeId) (rounds : ℕ)
    → IsValid fs
    → (open_node max_links name writing mode fs).1 ≡ ok c
    → length b < rounds
    → ((write_file name b mode fs).1 ≡ ok tt)
      × (read_file rounds (write_file name b mode fs).0 name ≡ some (ok b))
read_file-write_file fs name b mode c rounds v e h =
    let (grown, again) =
      open_node_lem max_links name writing read_only mode (permissions 420) fs v in
    let s = (open_node max_links name writing mode fs).0 in
    let (done, g, contents) = put_lem s c b grown.valid in
    let opened = again c e (put b c s).0 g.extends in
    let first : open_node max_links name writing mode fs ≡ (s, ok c) = ground arith in
    rw (write_opened fs s name b mode c first)
      (done, read_opened (put b c s).0 name c rounds opened (rw contents h) ∙ rw contents refl)
