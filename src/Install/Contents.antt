-- ===== src/Install/Contents.antt =====
-- pkg/apk/install.go: what is read from a file that was installed.
use Prim.Native.Nat.{zero, suc, ◌+◌, ◌-◌, ◌<◌, ◌≤◌}
use mathlib.Core.List.{append-nil, append_assoc}
use mathlib.Core.Bool.{◌&&◌}
use go_apk.Base.{
  ℕ, true, false, List, [], ◌∷◌, ◌++◌, Option, some, ◌≡◌, ◌∙◌, refl, inl, inr, arith, Bool-cases,
  is_nil, length, length-append, leb,
}
use go_apk.Base.Bytes.{Bytes, has_prefix}
use go_apk.Base.Decimal.{pos}
use go_apk.Base.Maps.{Map}
use go_apk.MemFs.{NodeId, permissions, MemFs, Error, Result, ok, err, set_node, max_links}
use go_apk.MemFs.Lookup.{stat}
use go_apk.MemFs.Attributes.{attributed, set_xattr}
use go_apk.MemFs.Files.{
  Flags, read_only, open_node, MemFile, new_mem_file, open_file, take, drop, written, write,
  read_file,
}
use go_apk.MemFs.Valid.{IsValid, Grown, Grown-refl, Grown-trans, set_node-Grown}
use go_apk.MemFs.Resolution.{Result-cases}
use go_apk.MemFs.Opening.{open_node_lem}
use go_apk.MemFs.Contents.{read_opened}
use go_apk.MemFs.Reach.{set_xattr-Grown}
use go_apk.Install.{
  PackageRef, Header, Reader, Library, Outcome, done, failed, Run, chain, lift, xattr_prefix,
}
use go_apk.Install.Files.{
  creating, limit, joined, write_chunks, copy_n, write_new, write_one_file, checksum_from_header,
  with_sum, with_checksum, set_xattrs, finish_file, settle, install_regular_file,
}
use go_apk.Install.Steps.{chain_lem}

take-length : (s : Bytes) → take (length s) s ≡ s
take-length [] = refl
take-length (c ∷ s) = ground (arith, take-length s)

take-long : (n : ℕ) (s : Bytes) → length s ≤ n → take n s ≡ s
take-long zero [] h = refl
take-long zero (c ∷ s) h = absurd (omega arith)
take-long (suc n) [] h = refl
take-long (suc n) (c ∷ s) h = ground (arith, take-long n s)

nil_of_empty : (s : Bytes) → length s ≤ 0 → s ≡ []
nil_of_empty [] h = refl
nil_of_empty (c ∷ s) h = absurd (omega arith)

-- A limit that is large enough takes nothing away.
joined-limit : (n : ℕ) (cs : List Bytes) → length (joined cs) ≤ n → joined (limit n cs) ≡ joined cs
unfolding joined limit
joined-limit n [] h = refl
joined-limit zero (c ∷ cs) h = ground (arith, nil_of_empty (c ++ joined cs))
joined-limit (suc n) (c ∷ cs) h =
    let l = length-append c (joined cs) in
    ground (arith, take-long (suc n) c, joined-limit (suc n - length c) cs)

abbrev pub opened_at : Flags → NodeId → ℕ → MemFile
opened_at flag c n = record { node = some c; offset = pos n; open_mode = flag }

abbrev out : NodeId → ℕ → MemFile
out = opened_at creating

-- A write at the end.
pub write_end :
    (flag : Flags) (fs : MemFs) (c : NodeId) (s p : Bytes)
    → flag.append && flag.read_write && flag.write_only ≡ false
    → (fs.node c).contents ≡ s
    → is_nil p ≡ false
    → write (opened_at flag c (length s)) p fs ≡ (
      set_node fs c (record (fs.node c) { contents = s ++ p }),
      ok (opened_at flag c (length s + length p)),
    )
unfolding write written
write_end flag fs c s [] k e h = absurd (cc h)
write_end flag fs c s (x ∷ p) k e h = ground (arith, take-length s)

-- All was written to the node, and nothing else has changed.
record Wrote (fs : MemFs) (c : NodeId) (b : Bytes) {A : Type 0} (m : MemFs × Outcome A)
    : Type 0 where
  grown : Grown fs m.0
  succeeds : (a : A) × (m.1 ≡ done a)
  contents : (m.0.node c).contents ≡ b

write_chunks-Wrote :
    (cs : List Bytes) (fs : MemFs) (c : NodeId) (s : Bytes)
    → IsValid fs
    → (fs.node c).contents ≡ s
    → Wrote fs c (s ++ joined cs) (write_chunks cs (out c (length s)) fs)
unfolding write_chunks joined
write_chunks-Wrote [] fs c s v e = record {
  grown = Grown-refl fs v;
  succeeds = (out c (length s), refl);
  contents = e ∙ rw (append-nil s) refl;
}
write_chunks-Wrote ([] ∷ cs) fs c s v e = write_chunks-Wrote cs fs c s v e
write_chunks-Wrote ((x ∷ p) ∷ cs) fs c s v e =
    let n = record (fs.node c) { contents = s ++ x ∷ p } in
    let t = set_node fs c n in
    let g = set_node-Grown fs c n v refl refl refl refl in
    let w = write_chunks-Wrote cs t c (s ++ x ∷ p) g.valid (ground arith) in
    rw (write_end creating fs c s (x ∷ p) refl e refl, write_chunks)
      (rw (← length-append s (x ∷ p)) (record {
        grown = Grown-trans fs t _ g w.grown;
        succeeds = w.succeeds;
        contents = w.contents ∙ append_assoc s (x ∷ p) (joined cs);
      }))

Wrote-then :
    {A : Type 0} (fs : MemFs) (c : NodeId) (b : Bytes) (m : MemFs × Outcome A)
    (k : A → Run MemFs (Unit {0}))
    → Wrote fs c b m
    → ((a : A) → k a m.0 ≡ (m.0, done tt))
    → Wrote fs c b (chain m k)
Wrote-then fs c b (t, done a) k w h =
    rw (h a) (record { grown = w.grown; succeeds = (tt, refl); contents = w.contents })
Wrote-then fs c b (t, failed e) k w h = absurd (let d = w.succeeds.1 in cc d)

-- The node that was opened is empty, and the reader gives as many bytes as the header says.
write_new-Wrote :
    (h : Header) (r : Reader) (fs s : MemFs) (c : NodeId)
    → IsValid s
    → open_node max_links h.name creating h.file_mode fs ≡ (s, ok c)
    → (s.node c).contents ≡ []
    → length (joined r.chunks) ≡ h.size
    → Wrote s c (joined r.chunks) (write_new h r fs)
unfolding write_new copy_n open_file new_mem_file
write_new-Wrote h r fs s c v e empty size =
    let w = write_chunks-Wrote (limit h.size r.chunks) s c [] v empty in
    let whole = joined-limit h.size r.chunks (omega arith) in
    let enough : leb h.size (length (joined r.chunks)) ≡ true = ground arith in
    rw (e, write_new)
      (Wrote-then s c (joined r.chunks) (write_chunks (limit h.size r.chunks) (out c 0) s) _
        (rw whole at w) λ a. rw enough refl)

-- Attributes change no contents.
record Kept (c : NodeId) (fs fs' : MemFs) : Type 0 where
  grown : Grown fs fs'
  contents : (fs'.node c).contents ≡ (fs.node c).contents

Kept-trans : (c : NodeId) (a b d : MemFs) → Kept c a b → Kept c b d → Kept c a d
Kept-trans c a b d h k = record {
  grown = Grown-trans a b d h.grown k.grown;
  contents = k.contents ∙ h.contents;
}

lift-state : {A : Type 0} (m : MemFs × Result A) → (lift m).0 ≡ m.0
lift-state (fs, ok a) = refl
lift-state (fs, err e) = refl

set_xattr-contents :
    (c : NodeId) (fs : MemFs) (name attr value : Bytes)
    → ((set_xattr name attr value fs).0.node c).contents ≡ (fs.node c).contents
unfolding set_xattr
set_xattr-contents c fs name attr value = elim (Result-cases (attributed fs name)) [
  | inr (x, e) ↦ ground (arith, e)
  | inl (i, e) ↦ ground (arith, e)
]

set_xattr-Kept :
    (c : NodeId) (fs : MemFs) (name attr value : Bytes)
    → IsValid fs
    → Kept c fs (lift (set_xattr name attr value fs)).0
set_xattr-Kept c fs name attr value v = rw (lift-state (set_xattr name attr value fs)) (record {
  grown = set_xattr-Grown fs v name attr value;
  contents = set_xattr-contents c fs name attr value;
})

Kept-then :
    {A B : Type 0} (c : NodeId) (fs : MemFs) (m : MemFs × Outcome A) (f : A → Run MemFs B)
    → Kept c fs m.0
    → ((a : A) → Kept c m.0 (f a m.0).0)
    → Kept c fs (chain m f).0
Kept-then c = chain_lem (Kept c) (Kept-trans c)

Kept-refl : (c : NodeId) (fs : MemFs) → IsValid fs → Kept c fs fs
Kept-refl c fs v = record { grown = Grown-refl fs v; contents = refl }

set_xattrs-Kept :
    (c : NodeId) (name : Bytes) (m : Map Bytes) (fs : MemFs)
    → IsValid fs
    → Kept c fs (set_xattrs name m fs).0
unfolding set_xattrs
set_xattrs-Kept c name [] fs v = Kept-refl c fs v
set_xattrs-Kept c name ((k, x) ∷ m) fs v = elim (Bool-cases (has_prefix k xattr_prefix)) [
  | inr e ↦ rw (e, set_xattrs) (set_xattrs-Kept c name m fs v)
  | inl e ↦
      let attr = drop (length xattr_prefix) k in
      let once = set_xattr-Kept c fs name attr x v in
      rw (e, set_xattrs)
        (Kept-then c fs (lift (set_xattr name attr x fs)) (λ u. set_xattrs name m) once
          λ u. set_xattrs-Kept c name m _ once.grown.valid)
]

finish_file-Kept :
    (c : NodeId) (lib : Library) (h : Header) (sum : Bytes) (fs : MemFs)
    → IsValid fs
    → Kept c fs (finish_file lib h sum fs).0
unfolding finish_file
finish_file-Kept c lib h sum fs v =
    let m = lib.visit (with_checksum sum h).pax_records in
    let k = set_xattrs-Kept c h.name m fs v in
    Kept-then c fs (set_xattrs h.name m fs) _ k λ u. Kept-refl c _ k.grown.valid

-- What follows a file that was written.
settle-Kept :
    (c : NodeId) (lib : Library) (owners : Map PackageRef) (h : Header) (r : Reader)
    (pkg : PackageRef) (sum b : Bytes) (fs : MemFs) (m : MemFs × Outcome (Unit {0}))
    → Wrote fs c b m
    → Kept c m.0 (settle lib owners h r pkg sum m).0
settle-Kept c lib owners h r pkg sum b fs (t, done u) w =
    finish_file-Kept c lib h sum t w.grown.valid
settle-Kept c lib owners h r pkg sum b fs (t, failed e) w = absurd (let d = w.succeeds.1 in cc d)

-- Where no file is at the name, and one can be opened that is empty, `installRegularFile` writes into
-- it what the reader gives, if that is as much as the header says: `ReadFile` then returns this, also
-- where an attribute cannot be set. The reader is that of the archive, or of the temporary file.
pub read_file-install_regular_file :
    (lib : Library) (owners : Map PackageRef) (h : Header) (r r' : Reader) (pkg : PackageRef)
    (fs s : MemFs) (c : NodeId) (given : Option Bytes) (sum : Bytes) (e : Error) (rounds : ℕ)
    → IsValid fs
    → stat fs h.name ≡ err e
    → checksum_from_header h ≡ done given
    → with_sum lib r given ≡ done (sum, r')
    → open_node max_links h.name creating h.file_mode fs ≡ (s, ok c)
    → (s.node c).contents ≡ []
    → length (joined r'.chunks) ≡ h.size
    → h.size < rounds
    → read_file rounds (install_regular_file lib owners h r pkg fs).0 h.name
      ≡ some (ok (joined r'.chunks))
unfolding install_regular_file write_one_file
read_file-install_regular_file lib owners h r r' pkg fs s c given sum e rounds v absent f g opens
      empty size n =
    let (grown, again) =
      open_node_lem max_links h.name creating read_only h.file_mode (permissions 420) fs v in
    let gs : Grown fs s = rw opens at grown in
    let m = write_new h r' fs in
    let w = write_new-Wrote h r' fs s c gs.valid opens empty size in
    let k = settle-Kept c lib owners h r' pkg sum (joined r'.chunks) s m w in
    let t = (settle lib owners h r' pkg sum m).0 in
    let x = Grown-trans s m.0 t w.grown k.grown in
    let contents = k.contents ∙ w.contents in
    rw (f, install_regular_file)
      (rw (g, install_regular_file)
        (rw (absent, write_one_file)
          (read_opened t h.name c rounds ((rw opens at again) c refl t x.extends)
              (rw (contents, size) n)
            ∙ rw contents refl)))
