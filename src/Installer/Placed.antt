-- ===== src/Installer/Placed.antt =====
-- pkg/apk/installed.go: in what order `sortTarHeaders` lists the headers.
use Prim.Native.Nat.{zero, suc, ◌+◌, ◌≤◌, ◌<◌}
use go_apk.Base.{
  ℕ, Bool, true, false, List, [], ◌∷◌, ◌++◌, Option, some, ◌≡◌, ◌≢◌, ◌∙◌, sym, refl, ap, inl, inr,
  arith, Bool-cases, Option-cases, if◌then◌else◌, is_nil, length, keep, All, All-imp,
}
use go_apk.Base.Bytes.{Bytes, codes, str_eq, str_eq_iff, split, join}
use go_apk.Base.Paths.{slash, clean, dir, clean_elements, split_path}
use go_apk.Base.Maps.{lookup, or_nil}
use go_apk.World.{sort_strings}
use go_apk.World.Laws.{sort_strings-All}
use go_apk.Install.{Header}
use go_apk.Installer.Sorting.{
  Tree, no_tree, tree_loop, keys, is_dir, sort_files, sort_below, both, sort_dirs, sort_children,
  top_level, sort_tar_headers,
}
use go_apk.Installer.Shorter.{dir_shorter}
use go_apk.Installer.Trees.{IsTree, Fits, no_tree-IsTree, tree_loop-IsTree}

-- Every header that is no directory follows the header of the directory it is in, with no other
-- directory between them: a reader that keeps the last directory, at first this one, knows it.
unfoldable pub Placed : Bytes → List Header → Type 0
Placed d [] = Unit
Placed d (h ∷ l) =
    ((is_dir h ≡ false) → dir (clean h.name) ≡ d) × Placed (if is_dir h then clean h.name else d) l

Placed-append :
    (l r : List Header) (d : Bytes) → Placed d l → ((e : Bytes) → Placed e r) → Placed d (l ++ r)
unfolding Placed
Placed-append [] r d _ h = h d
Placed-append (x ∷ l) r d (p, ps) h = (p, Placed-append l r _ ps h)

file-Placed :
    (h : Header) (l : List Header) (d : Bytes)
    → is_dir h ≡ false
    → dir (clean h.name) ≡ d
    → Placed d l
    → Placed d (h ∷ l)
unfolding Placed
file-Placed h l d e f p = (λ _. f, rw e p)

dir-Placed :
    (h : Header) (l : List Header) (d : Bytes)
    → is_dir h ≡ true
    → Placed (clean h.name) l
    → Placed d (h ∷ l)
unfolding Placed
dir-Placed h l d e p = (λ k. absurd (cc (k, e)), rw e p)

-- The headers that are no directories.
sort_files-Placed :
    (bound : ℕ) (t : Tree) (d : Bytes) (cs : List Bytes)
    → IsTree bound t
    → All (λ c. dir c ≡ d) cs
    → (r : List Header) → ((e : Bytes) → Placed e r)
    → Placed d (sort_files t cs ++ r)
unfolding sort_files
sort_files-Placed bound t d [] v _ r h = h d
sort_files-Placed bound t d (c ∷ cs) v (e, es) r h =
    let rest = sort_files-Placed bound t d cs v es r h in
    elim (Option-cases (lookup c t.headers)) [
      | inl f ↦ rw (f, sort_files) rest
      | inr (x, f) ↦ elim (Bool-cases (is_dir x)) [
        | inl g ↦ rw (f, g, sort_files) rest
        | inr g ↦
            rw (f, g, sort_files)
              (file-Placed x (sort_files t cs ++ r) d g (rw (v.named c x f) e) rest)
      ]
    ]

-- The recursive call lists what is below a directory.
abbrev Lists : (List Bytes → Option (List Header)) → Tree → Bytes → Type 0
Lists sort t c =
    (h : Header)
    → lookup c t.headers ≡ some h
    → (l : List Header) × (sort_below sort t c ≡ some l) × Placed c l

sort_dirs-Placed :
    (bound : ℕ) (sort : List Bytes → Option (List Header)) (t : Tree) (cs : List Bytes)
    → IsTree bound t
    → All (Lists sort t) cs
    → (l : List Header) × (sort_dirs sort t cs ≡ some l) × ((e : Bytes) → Placed e l)
unfolding sort_dirs
sort_dirs-Placed bound sort t [] v _ = ([], refl, λ e. unfold Placed in tt)
sort_dirs-Placed bound sort t (c ∷ cs) v (s, ss) =
    let (l, e, p) = sort_dirs-Placed bound sort t cs v ss in
    elim (Option-cases (lookup c t.headers)) [
      | inl f ↦ (l, rw (f, sort_dirs) e, p)
      | inr (x, f) ↦ elim (Bool-cases (is_dir x)) [
        | inr g ↦ (l, rw (f, g, sort_dirs) e, p)
        | inl g ↦
            let (m, a, b) = s x f in
            (
              x ∷ m ++ l,
              rw (f, g, a, e, sort_dirs) refl,
              λ d. dir-Placed x (m ++ l) d g (rw (v.named c x f) (Placed-append m l c b p)),
            )
      ]
    ]

-- With this depth the children of a directory are listed.
abbrev Ends : ℕ → ℕ → Tree → Type 0
Ends bound depth t =
    (k : Bytes) (cs : List Bytes)
    → k ≢ codes "."
    → k ≢ slash ∷ []
    → is_nil cs ≡ false
    → All (λ c. (dir c ≡ k) × (length c < bound)) cs
    → bound ≤ depth + length k
    → (l : List Header) × (sort_children depth t cs ≡ some l) × Placed k l

Lists-of_Ends :
    (bound depth : ℕ) (t : Tree) (c : Bytes)
    → IsTree bound t
    → Ends bound depth t
    → c ≢ slash ∷ []
    → bound ≤ depth + length c
    → Lists (sort_children depth t) t c
unfolding sort_below
Lists-of_Ends bound depth t c v ends ns enough h e =
    elim (Bool-cases (is_nil (or_nil (lookup c t.children)))) [
      | inl f ↦ ([], rw f refl, unfold Placed in tt)
      | inr f ↦
          let (l, g, p) =
            ends c (or_nil (lookup c t.children)) (λ d. absurd (let x = v.no_dot in cc (x, e, d)))
              ns f (v.below c) enough in
          (l, rw f g, p)
    ]

level-Placed :
    (bound depth : ℕ) (t : Tree) (k : Bytes) (cs : List Bytes)
    → IsTree bound t
    → All (λ c. dir c ≡ k) cs
    → All (Lists (sort_children depth t) t) cs
    → (l : List Header) × (both (some (sort_files t cs)) (sort_dirs (sort_children depth t) t cs)
        ≡ some l)
      × Placed k l
level-Placed bound depth t k cs v ds ls =
    let (l, e, p) = sort_dirs-Placed bound (sort_children depth t) t cs v ls in
    (sort_files t cs ++ l, rw e refl, sort_files-Placed bound t k cs v ds l p)

parent_of_root : dir (slash ∷ []) ≡ slash ∷ []
parent_of_root = unfold dir clean clean_elements split_path split join str_eq in refl

dot_ne_slash : codes "." ≢ slash ∷ []
unfolding str_eq
dot_ne_slash e = absurd (let f = (str_eq_iff (codes ".") (slash ∷ [])).1 e in cc f)

no_root : (c k : Bytes) → dir c ≡ k → k ≢ slash ∷ [] → c ≢ slash ∷ []
no_root c k e ns r = ns (sym e ∙ ap dir r ∙ parent_of_root)

keep-All : (p : Bytes → Bool) (cs : List Bytes) → All (λ c. p c ≡ true) (keep p cs)
keep-All p [] = tt
keep-All p (c ∷ cs) = elim (Bool-cases (p c)) [
  | inl e ↦ rw e (e, keep-All p cs)
  | inr e ↦ rw e (keep-All p cs)
]

sort_children-Placed : (bound : ℕ) (t : Tree) → IsTree bound t → (depth : ℕ) → Ends bound depth t
unfolding sort_children
sort_children-Placed bound t v zero k [] nd ns some_child cs enough = absurd (cc some_child)
sort_children-Placed bound t v zero k (c ∷ l) nd ns some_child ((e, short), cs) enough = absurd (
    let s = dir_shorter c (rw e nd) (rw e ns) in
    let s' : length k < length c = rw e at s in ground arith)
sort_children-Placed bound t v (suc depth) k cs nd ns some_child hs enough =
    let sorted = sort_strings cs in
    let hs' = sort_strings-All (λ c. (dir c ≡ k) × (length c < bound)) cs hs in
    let ih = sort_children-Placed bound t v depth in
    level-Placed bound depth t k sorted v (All-imp sorted (λ c (e, l). e) hs') (
      All-imp sorted
        (λ c (e, l).
          let s = dir_shorter c (rw e nd) (rw e ns) in
          let s' : length k < length c = rw e at s in
          Lists-of_Ends bound depth t c v ih (no_root c k e ns) (omega arith))
        hs')

-- Where no header is of the working directory itself, and the depth is above the length of every
-- path, `sortTarHeaders` ends, and every file in its result follows the header of its directory with
-- no other directory between them.
pub sort_tar_headers-Placed :
    (bound depth : ℕ) (headers : List Header)
    → All (Fits bound) headers
    → bound < depth
    → (l : List Header) × (sort_tar_headers depth headers ≡ some l) × Placed (codes ".") l
unfolding sort_tar_headers
sort_tar_headers-Placed bound zero headers h enough = absurd (omega arith)
sort_tar_headers-Placed bound (suc depth) headers h enough =
    let t = tree_loop no_tree headers in
    let v = tree_loop-IsTree bound no_tree headers (no_tree-IsTree bound) h in
    let top = keep top_level (sort_strings (keys t.children)) in
    let tops =
      sort_strings-All (λ c. top_level c ≡ true) (sort_strings top)
        (sort_strings-All (λ c. top_level c ≡ true) top
          (keep-All top_level (sort_strings (keys t.children)))) in
    let sorted = sort_strings (sort_strings top) in
    let above : (c : Bytes) → top_level c ≡ true → dir c ≡ codes "." =
      λ c e. (str_eq_iff (dir c) (codes ".")).0 e in
    unfold sort_children in
    level-Placed bound depth t (codes ".") sorted v (All-imp sorted above tops) (
      All-imp sorted
        (λ c e.
          Lists-of_Ends bound depth t c v (sort_children-Placed bound t v depth)
            (no_root c (codes ".") (above c e) dot_ne_slash) (omega arith))
        tops)
