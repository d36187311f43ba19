-- ===== src/MemFs/Opening.antt =====
-- pkg/fs/memfs.go: `openFile` keeps what is there, and finds the same node again.
use Prim.Native.Nat.{zero, suc, ◌<◌}
use go_apk.Base.{ℕ, true, false, some, ◌≡◌, ◌∙◌, refl, inl, inr, arith, Bool-cases, Option-cases}
use go_apk.Base.Bytes.{Bytes, str_eq_iff}
use go_apk.Base.Maps.{lookup-insert}
use go_apk.Base.Paths.{dir, base}
use go_apk.MemFs.{
  Mode, NodeId, MemFs, Result, ok, err, Op, and_then, ◌>>=◌, new_node, too_many_links,
}
use go_apk.MemFs.Lookup.{child_of, target_path, get_node}
use go_apk.MemFs.Entries.{add_node, with_children}
use go_apk.MemFs.Files.{Flags, open_entry, open_parent, open_step, open_target, open_node}
use go_apk.MemFs.Valid.{
  IsValid, Extends, Extends-refl, Extends-trans, Grown, Grown-refl, Grown-trans,
}
use go_apk.MemFs.Resolution.{Result-cases, get_node-Extends, get_node-lt, child_of-lt}
use go_apk.MemFs.Growth.{new_node-IsNew, add_node-Grown, with_children-Grown}

-- The entry of a name that can be opened as a file.
pub record Opened (fs : MemFs) (name : Bytes) (c : NodeId) : Type 0 where
  pub parent : NodeId
  pub parent_found : get_node fs (dir name) ≡ ok parent
  pub parent_dir : (fs.node parent).dir ≡ true
  pub entry : child_of fs parent (base name) ≡ some c
  pub file : (fs.node c).dir ≡ false

pub Opened-Extends :
    (fs fs' : MemFs) (name : Bytes) (c : NodeId)
    → IsValid fs
    → Extends fs fs'
    → Opened fs name c
    → Opened fs' name c
Opened-Extends fs fs' name c v x o =
    let n = get_node-lt fs (dir name) o.parent v o.parent_found in
    record {
      parent = o.parent;
      parent_found = get_node-Extends fs fs' (dir name) o.parent v x o.parent_found;
      parent_dir = x.same_dir o.parent n ∙ o.parent_dir;
      entry = x.kept o.parent c (base name) n o.entry;
      file =
          x.same_dir c (child_of-lt fs fs v (Extends-refl fs) o.parent c (base name) o.entry)
          ∙ o.file;
    }

module _ (fs : MemFs) (v : IsValid fs) (i : NodeId) (name : Bytes) (flag : Flags) (perm : Mode)
    (h : i < fs.next) where
  open_entry-Grown : Grown fs (open_entry flag perm i name fs).0
  unfolding open_entry
  open_entry-Grown = elim (Option-cases (child_of fs i name)) [
    | inr (c, e) ↦ elim (Bool-cases (fs.node c).dir) [
      | inl f ↦ rw (e, open_entry) (rw f (Grown-refl fs v))
      | inr f ↦ rw (e, open_entry) (rw f (Grown-refl fs v))
    ]
    | inl e ↦ elim (Bool-cases flag.create) [
      | inl f ↦
          rw (e, open_entry)
            (rw f (add_node-Grown fs v i name (new_node name perm) (new_node-IsNew name perm) h e))
      | inr f ↦ rw (e, open_entry) (rw f (Grown-refl fs v))
    ]
  ]

  open_entry_lem :
      (c : NodeId)
      → (open_entry flag perm i name fs).1 ≡ ok c
      → (child_of (open_entry flag perm i name fs).0 i name ≡ some c)
        × (((open_entry flag perm i name fs).0.node c).dir ≡ false)
  unfolding open_entry add_node child_of
  open_entry_lem c e = elim (Option-cases (fs.node i).children) [
    | inl f ↦ absurd (ground arith)
    | inr (m, f) ↦ ground (arith, lookup-insert name name fs.next m, str_eq_iff name name)
  ]

open_step_lem :
    (fs : MemFs) (name : Bytes) (flag : Flags) (perm : Mode)
    → IsValid fs
    → Grown fs (open_step name flag perm fs).0
      × ((c : NodeId)
          → (open_step name flag perm fs).1 ≡ ok c
          → Opened (open_step name flag perm fs).0 name c)
unfolding open_step open_parent
open_step_lem fs name flag perm v = elim (Result-cases (get_node fs (dir name))) [
  | inr (x, e) ↦ rw e (Grown-refl fs v, λ c f. absurd (cc f))
  | inl (i, e) ↦ elim (Bool-cases (fs.node i).dir) [
    | inr d ↦ rw e (rw d (Grown-refl fs v, λ c f. absurd (cc f)))
    | inl d ↦
        let h = get_node-lt fs (dir name) i v e in
        let g = with_children-Grown fs v i in
        let s = with_children i fs in
        let h' : i < s.next = omega (arith, g.extends.grown) in
        let k = open_entry-Grown s g.valid i (base name) flag perm h' in
        let x = Grown-trans fs s (open_entry flag perm i (base name) s).0 g k in
        rw e (
          rw d (
            x,
            λ c f.
                let (entry, file) = open_entry_lem s g.valid i (base name) flag perm h' c f in
                record {
                  parent = i;
                  parent_found =
                      get_node-Extends fs (open_entry flag perm i (base name) s).0 (dir name) i v
                        x.extends e;
                  parent_dir = x.extends.same_dir i h ∙ d;
                  entry = entry;
                  file = file;
                },
          ))
  ]
]

-- An entry that can be opened is opened, whatever the flags, and nothing changes.
pub open_step-Opened :
    (fs : MemFs) (name : Bytes) (c : NodeId) (flag : Flags) (perm : Mode)
    → Opened fs name c
    → open_step name flag perm fs ≡ (fs, ok c)
unfolding open_step open_parent open_entry with_children child_of
open_step-Opened fs name c flag perm o = elim (Option-cases (fs.node o.parent).children) [
  | inl f ↦ absurd (let e = o.entry in ground arith)
  | inr (m, f) ↦ rw o.parent_found (rw o.parent_dir (ground (arith, o.entry, o.file)))
]

-- Both ways to follow a link keep what is there, and the second finds again what the first found.
abbrev Follows : (Bytes → Op NodeId) → (Bytes → Op NodeId) → Type 0
Follows follow again =
    (target : Bytes) (fs : MemFs)
    → IsValid fs
    → Grown fs (follow target fs).0
      × ((c : NodeId)
          → (follow target fs).1 ≡ ok c
          → (t : MemFs) → Extends (follow target fs).0 t
          → again target t ≡ (t, ok c))

open_target_lem :
    (follow again : Bytes → Op NodeId) (name : Bytes) (flag flag' : Flags) (perm perm' : Mode)
    → Follows follow again
    → (fs : MemFs) → IsValid fs
    → Grown fs ((open_step name flag perm >>= open_target follow (dir name)) fs).0
      × ((c : NodeId)
          → ((open_step name flag perm >>= open_target follow (dir name)) fs).1 ≡ ok c
          → (t : MemFs)
          → Extends ((open_step name flag perm >>= open_target follow (dir name)) fs).0 t
          → (open_step name flag' perm' >>= open_target again (dir name)) t ≡ (t, ok c))
unfolding open_target
open_target_lem follow again name flag flag' perm perm' w fs v =
    go (open_step name flag perm fs).0 (open_step name flag perm fs).1 refl
  where
    go :
        (s : MemFs) (r : Result NodeId)
        → open_step name flag perm fs ≡ (s, r)
        → Grown fs (and_then (s, r) (open_target follow (dir name))).0
          × ((c : NodeId)
              → (and_then (s, r) (open_target follow (dir name))).1 ≡ ok c
              → (t : MemFs) → Extends (and_then (s, r) (open_target follow (dir name))).0 t
              → (open_step name flag' perm' >>= open_target again (dir name)) t ≡ (t, ok c))
    go s (err e) f = (rw f at ((open_step_lem fs name flag perm v).0), λ c g. absurd (cc g))
    go s (ok d) f =
        let g : Grown fs s = rw f at ((open_step_lem fs name flag perm v).0) in
        let o : Opened s name d = rw f at ((open_step_lem fs name flag perm v).1 d (rw f refl)) in
        let n = child_of-lt s s g.valid (Extends-refl s) o.parent d (base name) o.entry in
        elim (Bool-cases (s.node d).mode.is_symlink) [
          | inr l ↦ rw l (
            g,
            λ c e t x.
                let again_opened =
                  open_step-Opened t name d flag' perm' (Opened-Extends s t name d g.valid x o) in
                let same : d ≡ c = ground arith in
                let link = x.same_link d n in rw again_opened (ground arith),
          )
          | inl l ↦
              let target = target_path (dir name) (s.node d).link_target in
              let (grown, refound) = w target s g.valid in
              rw l (
                Grown-trans fs s (follow target s).0 g grown,
                λ c e t x.
                    let y = Extends-trans s (follow target s).0 t grown.extends x in
                    let again_opened =
                      open_step-Opened t name d flag' perm'
                        (Opened-Extends s t name d g.valid y o) in
                    let link = y.same_link d n in
                    let same = y.same_target d n in
                    let found = refound c e t x in rw again_opened (ground arith),
              )
        ]

pub open_node_lem :
    (links : ℕ) (name : Bytes) (flag flag' : Flags) (perm perm' : Mode) (fs : MemFs)
    → IsValid fs
    → Grown fs (open_node links name flag perm fs).0
      × ((c : NodeId)
          → (open_node links name flag perm fs).1 ≡ ok c
          → (t : MemFs) → Extends (open_node links name flag perm fs).0 t
          → open_node links name flag' perm' t ≡ (t, ok c))
unfolding open_node
open_node_lem zero name flag flag' perm perm' =
    open_target_lem (λ target fs. (fs, err too_many_links)) (λ target fs. (fs, err too_many_links))
      name flag flag' perm perm' (λ target fs v. (Grown-refl fs v, λ c e. absurd (cc e)))
open_node_lem (suc links) name flag flag' perm perm' =
    open_target_lem (λ target. open_node links target flag perm)
      (λ target. open_node links target flag' perm') name flag flag' perm perm'
      (λ target fs v. open_node_lem links target flag flag' perm perm' fs v)
