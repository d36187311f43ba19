-- ===== src/Installer/Found.antt =====
-- pkg/apk/installed.go: `sortTarHeaders` lists no header but those that are reached.
use Prim.Native.Nat.{zero, suc}
use go_apk.Base.{
  ℕ, true, List, [], ◌∷◌, ◌++◌, Option, some, ◌≡◌, ◌∙◌, sym, refl, inl, inr, Bool-cases,
  Option-cases, is_nil, In, In-append_cases, In-keep, keep, ap,
}
use go_apk.Base.Bytes.{Bytes}
use go_apk.Base.Maps.{lookup, or_nil}
use go_apk.World.{sort_strings}
use go_apk.World.Laws.{sort_strings-In}
use go_apk.Install.{Header}
use go_apk.Installer.Sorting.{
  Tree, no_tree, tree_loop, keys, is_dir, sort_files, sort_below, sort_dirs, sort_children,
  top_level, sort_tar_headers,
}
use go_apk.Installer.Complete.{Within, here, deeper, put-some, both-some}

module _ (t : Tree) (h : Header) where
  -- A path from one of these whose header it is.
  pub record Found (cs : List Bytes) : Type 0 where
    pub from : Bytes
    pub to : Bytes
    pub member : In from cs
    pub within : Within t from to
    pub header : lookup to t.headers ≡ some h

  later : (c : Bytes) (cs : List Bytes) → Found cs → Found (c ∷ cs)
  later c cs f = record {
    from = f.from;
    to = f.to;
    member = inr f.member;
    within = f.within;
    header = f.header;
  }

  first : (c : Bytes) (cs : List Bytes) → lookup c t.headers ≡ some h → Found (c ∷ cs)
  first c cs e = record { from = c; to = c; member = inl refl; within = here c; header = e }

  sort_files-Found : (cs : List Bytes) → In h (sort_files t cs) → Found cs
  unfolding sort_files
  sort_files-Found [] i = absurd i
  sort_files-Found (c ∷ cs) i = elim (Option-cases (lookup c t.headers)) [
    | inl e ↦ later c cs (sort_files-Found cs (rw (e, sort_files) at i))
    | inr (x, e) ↦ elim (Bool-cases (is_dir x)) [
      | inl f ↦ later c cs (sort_files-Found cs (rw (e, f, sort_files) at i))
      | inr f ↦ elim (let j : In h (x ∷ sort_files t cs) = rw (e, f, sort_files) at i in j) [
        | inl s ↦ first c cs (e ∙ ap some (sym s))
        | inr j ↦ later c cs (sort_files-Found cs j)
      ]
    ]
  ]

  module _ (sort : List Bytes → Option (List Header))
      (ih : (cs : List Bytes) (l : List Header) → sort cs ≡ some l → In h l → Found cs) where
    sort_below-Found :
        (c : Bytes) (m : List Header)
        → sort_below sort t c ≡ some m
        → In h m
        → Found (or_nil (lookup c t.children))
    unfolding sort_below
    sort_below-Found c m e i = elim (Bool-cases (is_nil (or_nil (lookup c t.children)))) [
      | inr f ↦ ih (or_nil (lookup c t.children)) m (rw f at e) i
      | inl f ↦
          absurd (let e' = (rw f at e) in let same : m ≡ [] = cc e' in let j = (rw same at i) in j)
    ]

    sort_dirs-Found :
        (cs : List Bytes) (l : List Header) → sort_dirs sort t cs ≡ some l → In h l → Found cs
    unfolding sort_dirs
    sort_dirs-Found [] l e i = absurd (let same : l ≡ [] = cc e in let j = (rw same at i) in j)
    sort_dirs-Found (c ∷ cs) l e i = elim (Option-cases (lookup c t.headers)) [
      | inl g ↦ later c cs (sort_dirs-Found cs l (rw (g, sort_dirs) at e) i)
      | inr (x, g) ↦ elim (Bool-cases (is_dir x)) [
        | inr k ↦ later c cs (sort_dirs-Found cs l (rw (g, k, sort_dirs) at e) i)
        | inl k ↦
            let (m, n, a, b, j) =
              put-some x (sort_below sort t c) (sort_dirs sort t cs) l
                (rw (g, k, sort_dirs) at e) in
            elim (let i' : In h (x ∷ m ++ n) = rw (← j) at i in i') [
              | inl s ↦ first c cs (g ∙ ap some (sym s))
              | inr q ↦ elim (In-append_cases h m n q) [
                | inr p ↦ later c cs (sort_dirs-Found cs n b p)
                | inl p ↦
                    let f = sort_below-Found c m a p in
                    record {
                      from = c;
                      to = f.to;
                      member = inl refl;
                      within = deeper c f.from f.to x g k f.member f.within;
                      header = f.header;
                    }
              ]
            ]
      ]
    ]

  sorted-Found : (cs : List Bytes) → Found (sort_strings cs) → Found cs
  sorted-Found cs f = record {
    from = f.from;
    to = f.to;
    member = (sort_strings-In cs f.from).0 f.member;
    within = f.within;
    header = f.header;
  }

  sort_children-Found :
      (depth : ℕ) (cs : List Bytes) (l : List Header)
      → sort_children depth t cs ≡ some l
      → In h l
      → Found cs
  unfolding sort_children
  sort_children-Found zero cs l e i = absurd (cc e)
  sort_children-Found (suc depth) cs l e i =
      let sorted = sort_strings cs in
      let (n, p, q) =
        both-some (sort_files t sorted) (sort_dirs (sort_children depth t) t sorted) l e in
      sorted-Found cs (elim (In-append_cases h (sort_files t sorted) n (rw (← q) at i)) [
        | inl j ↦ sort_files-Found sorted j
        | inr j ↦ sort_dirs-Found (sort_children depth t) (sort_children-Found depth) sorted n p j
      ])

-- Every header in the result is that of a path that is reached from one at the top.
pub sort_tar_headers-Found :
    (depth : ℕ) (headers l : List Header) (h : Header)
    → let t = tree_loop no_tree headers in
      sort_tar_headers depth headers ≡ some l
      → In h l
      → (f : Found t h (keys t.children)) × (top_level f.from ≡ true)
unfolding sort_tar_headers
sort_tar_headers-Found depth headers l h e i =
    let t = tree_loop no_tree headers in
    let ks = sort_strings (keys t.children) in
    let tops = keep top_level ks in
    let f = sorted-Found t h tops (sort_children-Found t h depth (sort_strings tops) l e i) in
    let (j, k) = (In-keep top_level f.from ks).0 f.member in
    (
      record {
        from = f.from;
        to = f.to;
        member = (sort_strings-In (keys t.children) f.from).0 j;
        within = f.within;
        header = f.header;
      },
      k,
    )
