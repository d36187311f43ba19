-- ===== src/MemFs/Directories.antt =====
-- pkg/fs/memfs.go: `MkdirAll` keeps what is there, and leaves a directory at the path.
use Prim.Native.Nat.{suc, ◌<◌}
use go_apk.Base.{
  true, List, [], ◌∷◌, ◌++◌, some, ◌≡◌, refl, inl, inr, arith, Bool-cases, Option-cases, is_nil,
}
use go_apk.Base.Bytes.{Bytes, str_eq_iff, split, join}
use go_apk.Base.Maps.{lookup-insert}
use go_apk.MemFs.{
  Mode, NodeId, MemFs, Result, ok, err, and_then, ◌>>=◌, new_dir, root, path_sep, max_links,
}
use go_apk.MemFs.Lookup.{child_of, resolve, walk, is_root, get_node_count_links, get_node}
use go_apk.MemFs.Entries.{
  add_node, with_children, child_or_dir, linked_node, descend, mkdir_loop, mkdir_all,
}
use go_apk.MemFs.Valid.{IsValid, Extends-refl, Grown, Grown-refl, Grown-trans, Grown-bind}
use go_apk.MemFs.Resolution.{
  Result-cases, get_node-Extends, get_node-lt, child_of-lt, resolve-Extends,
}
use go_apk.MemFs.Growth.{new_dir-IsNew, add_node-Grown, with_children-Grown}

module _ (fs : MemFs) (v : IsValid fs) (i : NodeId) (part : Bytes) (perm : Mode)
    (h : i < fs.next) where
  child_or_dir-Grown : Grown fs (child_or_dir i part perm fs).0
  unfolding child_or_dir
  child_or_dir-Grown = elim (Option-cases (child_of fs i part)) [
    | inr (c, e) ↦ rw (e, child_or_dir) (Grown-refl fs v)
    | inl e ↦
        rw (e, child_or_dir)
          (add_node-Grown fs v i part (new_dir part perm) (new_dir-IsNew part perm) h e)
  ]

  -- What is returned is the child.
  child_of-child_or_dir :
      (c : NodeId)
      → (child_or_dir i part perm fs).1 ≡ ok c
      → child_of (child_or_dir i part perm fs).0 i part ≡ some c
  unfolding child_or_dir add_node child_of
  child_of-child_or_dir c e = elim (Option-cases (fs.node i).children) [
    | inl f ↦ absurd (ground arith)
    | inr (m, f) ↦ ground (arith, lookup-insert part part fs.next m, str_eq_iff part part)
  ]

-- A child is followed as `getNode` follows it.
linked_node-resolve :
    (fs : MemFs) (traversed : List Bytes) (c : NodeId)
    → linked_node traversed c fs ≡ (fs, resolve (get_node fs) fs (join traversed path_sep) c)
unfolding linked_node resolve
linked_node-resolve fs traversed c = ground arith

-- Where one part of the path led in a file system.
record Leads (fs : MemFs) (i : NodeId) (traversed : List Bytes) (part : Bytes) (j : NodeId)
    : Type 0 where
  child : NodeId
  entry : child_of fs i part ≡ some child
  followed : resolve (get_node fs) fs (join traversed path_sep) child ≡ ok j
  reached : j < fs.next

module _ (perm : Mode) (i : NodeId) (traversed : List Bytes) (part : Bytes) where
  -- The step from the state in which the directory has a map.
  step_lem :
      (s : MemFs)
      → IsValid s
      → i < s.next
      → Grown s ((child_or_dir i part perm >>= linked_node traversed) s).0
        × ((j : NodeId)
            → ((child_or_dir i part perm >>= linked_node traversed) s).1 ≡ ok j
            → Leads ((child_or_dir i part perm >>= linked_node traversed) s).0 i traversed part j)
  step_lem s v h = go (child_or_dir i part perm s).0 (child_or_dir i part perm s).1 refl
    where
      go :
          (t : MemFs) (r : Result NodeId)
          → child_or_dir i part perm s ≡ (t, r)
          → Grown s (and_then (t, r) (linked_node traversed)).0
            × ((j : NodeId)
                → (and_then (t, r) (linked_node traversed)).1 ≡ ok j
                → Leads (and_then (t, r) (linked_node traversed)).0 i traversed part j)
      go t (err e) f = (rw f at (child_or_dir-Grown s v i part perm h), λ j g. absurd (cc g))
      go t (ok c) f =
          let grown : Grown s t = rw f at (child_or_dir-Grown s v i part perm h) in
          let entry : child_of t i part ≡ some c =
            rw f at (child_of-child_or_dir s v i part perm h c (rw f refl)) in
          let w = grown.valid in
          rw (linked_node-resolve t traversed c) (
            grown,
            λ j g. record {
              child = c;
              entry = entry;
              followed = g;
              reached =
                  (resolve-Extends t t w (Extends-refl t) (get_node t) (get_node t)
                    (join traversed path_sep) c j (λ p k q. (get_node-lt t p k w q, q))
                    (child_of-lt t t w (Extends-refl t) i c part entry) g).0;
            },
          )

  descend-Grown :
      (fs : MemFs) → IsValid fs → i < fs.next → Grown fs (descend perm i traversed part fs).0
  unfolding descend
  descend-Grown fs v h =
      let g = with_children-Grown fs v i in
      Grown-trans fs (with_children i fs) _ g
        (step_lem (with_children i fs) g.valid (omega (arith, g.extends.grown))).0

  descend-Leads :
      (fs : MemFs) (j : NodeId)
      → IsValid fs
      → i < fs.next
      → (descend perm i traversed part fs).1 ≡ ok j
      → Leads (descend perm i traversed part fs).0 i traversed part j
  unfolding descend
  descend-Leads fs j v h e =
      let g = with_children-Grown fs v i in
      (step_lem (with_children i fs) g.valid (omega (arith, g.extends.grown))).1 j e

mkdir_loop-Grown :
    (perm : Mode) (i : NodeId) (traversed parts : List Bytes) (fs : MemFs)
    → IsValid fs
    → i < fs.next
    → Grown fs (mkdir_loop perm i traversed parts fs).0
unfolding mkdir_loop
mkdir_loop-Grown perm i traversed [] fs v h = Grown-refl fs v
mkdir_loop-Grown perm i traversed (part ∷ parts) fs v h = elim (Bool-cases (is_nil part)) [
  | inl e ↦ rw e (mkdir_loop-Grown perm i traversed parts fs v h)
  | inr e ↦
      let g = descend-Grown perm i traversed part fs v h in
      rw e (
        Grown-bind fs (descend perm i traversed part fs) _ g λ c f.
          elim (Bool-cases (((descend perm i traversed part fs).0).node c).dir) [
            | inl d ↦ rw d (
                mkdir_loop-Grown perm c (traversed ++ part ∷ []) parts
                  (descend perm i traversed part fs).0 g.valid
                  (descend-Leads perm i traversed part fs c v h f).reached)
            | inr d ↦ rw d (Grown-refl _ g.valid)
          ])
]

-- What the loop left is found by the walk along the same parts.
walk-mkdir_loop :
    (perm : Mode) (i : NodeId) (traversed parts : List Bytes) (fs fs' : MemFs)
    → IsValid fs
    → i < fs.next
    → (fs.node i).dir ≡ true
    → mkdir_loop perm i traversed parts fs ≡ (fs', ok tt)
    → (j : NodeId) × (walk (get_node fs') fs' i traversed parts ≡ ok j) × ((fs'.node j).dir ≡ true)
unfolding mkdir_loop walk
walk-mkdir_loop perm i traversed [] fs fs' v h d e =
    let same : fs ≡ fs' = ground arith in (i, refl, rw (← same) d)
walk-mkdir_loop perm i traversed (part ∷ parts) fs fs' v h d e = elim (Bool-cases (is_nil part)) [
  | inl f ↦
      let (j, w, k) = walk-mkdir_loop perm i traversed parts fs fs' v h d (rw f at e) in
      (j, rw f w, k)
  | inr f ↦
      let s = (descend perm i traversed part fs).0 in
      elim (Result-cases (descend perm i traversed part fs).1) [
        | inr (x, k) ↦ absurd (ground arith)
        | inl (c, k) ↦ elim (Bool-cases (s.node c).dir) [
          | inr l ↦ absurd (ground arith)
          | inl l ↦
              let e' : mkdir_loop perm c (traversed ++ part ∷ []) parts s ≡ (fs', ok tt) =
                ground arith in
              let g = descend-Grown perm i traversed part fs v h in
              let leads = descend-Leads perm i traversed part fs c v h k in
              let x : Grown s fs' =
                rw e' at (
                  mkdir_loop-Grown perm c (traversed ++ part ∷ []) parts s g.valid leads.reached) in
              let within : i < s.next = omega (arith, g.extends.grown) in
              let entry = x.extends.kept i leads.child part within leads.entry in
              let below = child_of-lt s s g.valid (Extends-refl s) i leads.child part leads.entry in
              let followed =
                (resolve-Extends s fs' g.valid x.extends (get_node s) (get_node fs')
                  (join traversed path_sep) leads.child c
                  (λ p q r.
                    (get_node-lt s p q g.valid r, get_node-Extends s fs' p q g.valid x.extends r))
                  below leads.followed).1 in
              let (j, w, m) =
                walk-mkdir_loop perm c (traversed ++ part ∷ []) parts s fs' g.valid leads.reached l
                  e' in
              (j, ground arith, m)
        ]
      ]
]

-- After `MkdirAll` of a path, the path leads to a directory: `getNode` finds it, if it may follow one
-- link more than it does, since `MkdirAll` counts links from each part of the path anew.
pub mkdir_all-dir :
    (path : Bytes) (perm : Mode) (fs fs' : MemFs)
    → IsValid fs
    → mkdir_all path perm fs ≡ (fs', ok tt)
    → (i : NodeId) × (get_node_count_links fs' (suc max_links) path ≡ ok i)
      × ((fs'.node i).dir ≡ true)
unfolding mkdir_all get_node_count_links get_node
mkdir_all-dir path perm fs fs' v e =
    let x : Grown fs fs' =
      rw e at (mkdir_loop-Grown perm root [] (split path path_sep) fs v v.root_allocated) in
    let (j, w, d) =
      walk-mkdir_loop perm root [] (split path path_sep) fs fs' v v.root_allocated v.root_dir e in
    elim (Bool-cases (is_root path)) [
      | inl f ↦ (root, ground arith, x.valid.root_dir)
      | inr f ↦ (j, ground arith, d)
    ]

pub mkdir_all-Grown :
    (path : Bytes) (perm : Mode) (fs : MemFs) → IsValid fs → Grown fs (mkdir_all path perm fs).0
unfolding mkdir_all
mkdir_all-Grown path perm fs v =
    mkdir_loop-Grown perm root [] (split path path_sep) fs v v.root_allocated
