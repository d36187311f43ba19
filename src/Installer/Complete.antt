-- ===== src/Installer/Complete.antt =====
-- pkg/apk/installed.go: which headers `sortTarHeaders` lists.
use Prim.Native.Nat.{zero, suc}
use mathlib.Core.Path.{subst}
use go_apk.Base.{
  ℕ, true, false, List, [], ◌∷◌, ◌++◌, Option, none, some, ◌≡◌, sym, refl, inl, inr, Bool-cases,
  Option-cases, is_nil, nil_of_true, keep, In, In-append_left, In-append_right, In-keep,
}
use go_apk.Base.Bytes.{Bytes}
use go_apk.Base.Maps.{lookup, or_nil}
use go_apk.World.{sort_strings}
use go_apk.World.Laws.{sort_strings-In}
use go_apk.Install.{Header}
use go_apk.Installer.Sorting.{
  Tree, no_tree, tree_loop, keys, is_dir, sort_files, sort_below, both, put, sort_dirs,
  sort_children, top_level, sort_tar_headers,
}

-- A path that is reached from another one through directories that have headers.
pub data Within (t : Tree) : Bytes → Bytes → Type 0 where
  here : (c : Bytes) → Within t c c
  deeper :
      (c d e : Bytes) (h : Header)
      → lookup c t.headers ≡ some h
      → is_dir h ≡ true
      → In d (or_nil (lookup c t.children))
      → Within t d e
      → Within t c e

pub put-some :
    (h : Header) (o r : Option (List Header)) (l : List Header)
    → put h (both o r) ≡ some l
    → (m : List Header) × (n : List Header) × (o ≡ some m) × (r ≡ some n) × (h ∷ m ++ n ≡ l)
put-some h none r l e = absurd (cc e)
put-some h (some m) none l e = absurd (cc e)
put-some h (some m) (some n) l e = (m, n, refl, refl, cc e)

module _ (t : Tree) (c : Bytes) (h : Header) (e : lookup c t.headers ≡ some h) where
  sort_files-In : (cs : List Bytes) → is_dir h ≡ false → In c cs → In h (sort_files t cs)
  unfolding sort_files
  sort_files-In [] f i = absurd i
  sort_files-In (d ∷ cs) f (inl g) = rw (← g, e, f, sort_files) (inl refl)
  sort_files-In (d ∷ cs) f (inr i) =
      let rest = sort_files-In cs f i in
      elim (Option-cases (lookup d t.headers)) [
        | inl g ↦ rw (g, sort_files) rest
        | inr (x, g) ↦ elim (Bool-cases (is_dir x)) [
          | inl k ↦ rw (g, k, sort_files) rest
          | inr k ↦ rw (g, k, sort_files) (inr rest)
        ]
      ]

  -- A directory is listed, and all that is listed below it.
  record Under (sort : List Bytes → Option (List Header)) (l : List Header) : Type 0 where
    listed : In h l
    below : List Header
    found : sort_below sort t c ≡ some below
    part : (x : Header) → In x below → In x l

  module _ (sort : List Bytes → Option (List Header)) where
    sort_dirs-Under :
        (cs : List Bytes) (l : List Header)
        → is_dir h ≡ true
        → In c cs
        → sort_dirs sort t cs ≡ some l
        → Under sort l
    unfolding sort_dirs
    sort_dirs-Under [] l f i s = absurd i
    sort_dirs-Under (d ∷ cs) l f (inl g) s =
        let s'' : sort_dirs sort t (c ∷ cs) ≡ some l =
          subst (λ x. sort_dirs sort t (x ∷ cs) ≡ some l) (sym g) s in
        let s' : put h (both (sort_below sort t c) (sort_dirs sort t cs)) ≡ some l =
          rw (e, f, sort_dirs) at s'' in
        let (m, n, a, b, k) = put-some h (sort_below sort t c) (sort_dirs sort t cs) l s' in
        record {
          listed = rw (← k) (inl refl);
          below = m;
          found = a;
          part = λ x i. rw (← k) (inr (In-append_left x m n i));
        }
    sort_dirs-Under (d ∷ cs) l f (inr i) s = elim (Option-cases (lookup d t.headers)) [
      | inl g ↦ sort_dirs-Under cs l f i (rw (g, sort_dirs) at s)
      | inr (x, g) ↦ elim (Bool-cases (is_dir x)) [
        | inr k ↦ sort_dirs-Under cs l f i (rw (g, k, sort_dirs) at s)
        | inl k ↦
            let s' : put x (both (sort_below sort t d) (sort_dirs sort t cs)) ≡ some l =
              rw (g, k, sort_dirs) at s in
            let (m, n, a, b, j) = put-some x (sort_below sort t d) (sort_dirs sort t cs) l s' in
            let u = sort_dirs-Under cs n f i b in
            record {
              listed = rw (← j) (inr (In-append_right h m n u.listed));
              below = u.below;
              found = u.found;
              part = λ y q. rw (← j) (inr (In-append_right y m n (u.part y q)));
            }
      ]
    ]

pub both-some :
    (m : List Header) (r : Option (List Header)) (l : List Header)
    → both (some m) r ≡ some l
    → (n : List Header) × (r ≡ some n) × (m ++ n ≡ l)
both-some m none l e = absurd (cc e)
both-some m (some n) l e = (n, refl, cc e)

-- What is in the list of children is not missed for its emptiness.
sort_below-some :
    (sort : List Bytes → Option (List Header)) (t : Tree) (c d : Bytes) (l : List Header)
    → In d (or_nil (lookup c t.children))
    → sort_below sort t c ≡ some l
    → sort (or_nil (lookup c t.children)) ≡ some l
unfolding sort_below
sort_below-some sort t c d l i s = elim (Bool-cases (is_nil (or_nil (lookup c t.children)))) [
  | inr f ↦ rw f at s
  | inl f ↦ absurd (let n = nil_of_true (or_nil (lookup c t.children)) f in rw n at i)
]

sort_children-In :
    (depth : ℕ) (t : Tree) (cs : List Bytes) (l : List Header) (c d : Bytes) (h : Header)
    → sort_children depth t cs ≡ some l
    → In c cs
    → Within t c d
    → lookup d t.headers ≡ some h
    → In h l
unfolding sort_children
sort_children-In zero t cs l c d h s i w e = absurd (cc s)
sort_children-In (suc depth) t cs l _ _ h s i (here c) e =
    let sorted = sort_strings cs in
    let i' = (sort_strings-In cs c).1 i in
    let (n, a, b) =
      both-some (sort_files t sorted) (sort_dirs (sort_children depth t) t sorted) l s in
    rw (← b) (elim (Bool-cases (is_dir h)) [
      | inr f ↦ In-append_left h (sort_files t sorted) n (sort_files-In t c h e sorted f i')
      | inl f ↦
          In-append_right h (sort_files t sorted) n
            (let u = sort_dirs-Under t c h e (sort_children depth t) sorted n f i' a in u.listed)
    ])
sort_children-In (suc depth) t cs l _ _ h s i (deeper c b d x g f j w) e =
    let sorted = sort_strings cs in
    let i' = (sort_strings-In cs c).1 i in
    let (n, p, q) =
      both-some (sort_files t sorted) (sort_dirs (sort_children depth t) t sorted) l s in
    let u = sort_dirs-Under t c x g (sort_children depth t) sorted n f i' p in
    let k = sort_below-some (sort_children depth t) t c b u.below j u.found in
    rw (← q) (
      In-append_right h (sort_files t sorted) n
        (u.part h (sort_children-In depth t (or_nil (lookup c t.children)) u.below b d h k j w e)))

-- Where `sortTarHeaders` ends, its result has the last header of every path that is reached through
-- directories with headers from a path at the top that has entries below it.
pub sort_tar_headers-In :
    (depth : ℕ) (headers l : List Header) (c d : Bytes) (h : Header)
    → let t = tree_loop no_tree headers in
      sort_tar_headers depth headers ≡ some l
      → In c (keys t.children)
      → top_level c ≡ true
      → Within t c d
      → lookup d t.headers ≡ some h
      → In h l
unfolding sort_tar_headers
sort_tar_headers-In depth headers l c d h s i top w e =
    let t = tree_loop no_tree headers in
    let ks = sort_strings (keys t.children) in
    let i' = (In-keep top_level c ks).1 ((sort_strings-In (keys t.children) c).1 i, top) in
    sort_children-In depth t (sort_strings (keep top_level ks)) l c d h s
      ((sort_strings-In (keep top_level ks) c).1 i') w e
