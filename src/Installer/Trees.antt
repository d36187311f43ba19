-- ===== src/Installer/Trees.antt =====
-- pkg/apk/installed.go: the maps that `sortTarHeaders` builds.
use Prim.Native.Nat.{◌<◌}
use go_apk.Base.{
  ℕ, List, [], ◌∷◌, none, some, ◌≡◌, ◌≢◌, refl, inl, inr, Bool-cases, length, All, All-append,
}
use go_apk.Base.Bytes.{Bytes, codes, str_eq, str_eq_iff}
use go_apk.Base.Paths.{clean, dir}
use go_apk.Base.Maps.{lookup, or_nil, lookup-insert}
use go_apk.Install.{Header}
use go_apk.Installer.Sorting.{Tree, no_tree, add_header, tree_loop}

-- The entries of the map lie in the directory that they are listed for, and their paths are shorter
-- than the bound; the working directory has no header.
pub record IsTree (bound : ℕ) (t : Tree) : Type 0 where
  pub below :
      (k : Bytes) → All (λ c. (dir c ≡ k) × (length c < bound)) (or_nil (lookup k t.children))
  pub named : (c : Bytes) (h : Header) → lookup c t.headers ≡ some h → clean h.name ≡ c
  pub no_dot : lookup (codes ".") t.headers ≡ none

-- What a header must be like.
abbrev pub Fits : ℕ → Header → Type 0
Fits bound h = (clean h.name ≢ codes ".") × (length (clean h.name) < bound)

add_header-IsTree :
    (bound : ℕ) (t : Tree) (h : Header)
    → IsTree bound t
    → Fits bound h
    → IsTree bound (add_header t h)
unfolding add_header
add_header-IsTree bound t h v (ne, short) = record {
  below = λ k.
      rw (lookup-insert (dir (clean h.name)) k _ t.children)
        (elim (Bool-cases (str_eq (dir (clean h.name)) k)) [
          | inl e ↦ rw e (
              let f = (str_eq_iff (dir (clean h.name)) k).0 e in
              All-append (λ c. (dir c ≡ k) × (length c < bound))
                (or_nil (lookup (dir (clean h.name)) t.children)) (clean h.name ∷ [])
                (rw f (v.below k)) ((f, short), tt))
          | inr e ↦ rw e (v.below k)
        ]);
  named = λ c g e.
      let e' = (rw (lookup-insert (clean h.name) c h t.headers) at e) in
      elim (Bool-cases (str_eq (clean h.name) c)) [
        | inl f ↦
            (let x : some h ≡ some g = rw f at e' in
              let y : h ≡ g = cc x in let z = (str_eq_iff (clean h.name) c).0 f in rw y at z)
        | inr f ↦ v.named c g (rw f at e')
      ];
  no_dot =
      rw (lookup-insert (clean h.name) (codes ".") h t.headers)
        (elim (Bool-cases (str_eq (clean h.name) (codes "."))) [
          | inl f ↦ absurd (ne ((str_eq_iff (clean h.name) (codes ".")).0 f))
          | inr f ↦ rw f v.no_dot
        ]);
}

pub no_tree-IsTree : (bound : ℕ) → IsTree bound no_tree
unfolding lookup
no_tree-IsTree bound = record { below = λ k. tt; named = λ c h e. absurd (cc e); no_dot = refl }

pub tree_loop-IsTree :
    (bound : ℕ) (t : Tree) (hs : List Header)
    → IsTree bound t
    → All (Fits bound) hs
    → IsTree bound (tree_loop t hs)
unfolding tree_loop
tree_loop-IsTree bound t [] v _ = v
tree_loop-IsTree bound t (h ∷ hs) v (f, fs) =
    tree_loop-IsTree bound (add_header t h) hs (add_header-IsTree bound t h v f) fs
