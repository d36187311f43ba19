-- ===== src/MemFs/Resolution.antt =====
-- pkg/fs/memfs.go: what `getNode` finds is allocated, and is found again where nothing goes.
use Prim.Native.Nat.{zero, suc, ◌<◌}
use go_apk.Base.{
  ℕ, List, [], ◌∷◌, ◌++◌, some, ◌≡◌, refl, ◌⊎◌, inl, inr, arith, Bool-cases, Option-cases, is_nil,
}
use go_apk.Base.Bytes.{Bytes, split, join}
use go_apk.MemFs.{NodeId, MemFs, Error, too_many_links, Result, ok, err, root, path_sep, max_links}
use go_apk.MemFs.Lookup.{child_of, target_path, resolve, walk, get_node_count_links, get_node}
use go_apk.MemFs.Valid.{IsValid, Extends, Extends-refl}

pub Result-cases {ℓ} :
    {A : Type ℓ} (r : Result A) → ((a : A) × (r ≡ ok a)) ⊎ ((e : Error) × (r ≡ err e))
Result-cases (ok a) = inl (a, refl)
Result-cases (err e) = inr (e, refl)

-- What one way to follow links finds is allocated, and another finds the same.
abbrev pub Refines : MemFs → (Bytes → Result NodeId) → (Bytes → Result NodeId) → Type 0
Refines fs follow follow' =
    (t : Bytes) (i : NodeId) → follow t ≡ ok i → (i < fs.next) × (follow' t ≡ ok i)

module _ (fs fs' : MemFs) (v : IsValid fs) (x : Extends fs fs') where
  pub child_of-lt : (i c : NodeId) (k : Bytes) → child_of fs i k ≡ some c → c < fs.next
  unfolding child_of
  child_of-lt i c k e = elim (Option-cases (fs.node i).children) [
    | inl f ↦ absurd (ground arith)
    | inr (m, f) ↦ v.allocated i c m k f (ground arith)
  ]

  pub resolve-Extends :
      (follow follow' : Bytes → Result NodeId) (dir : Bytes) (c j : NodeId)
      → Refines fs follow follow'
      → c < fs.next
      → resolve follow fs dir c ≡ ok j
      → (j < fs.next) × (resolve follow' fs' dir c ≡ ok j)
  unfolding resolve
  resolve-Extends follow follow' dir c j h n e =
      ground (arith, x.same_link c, x.same_target c, h (target_path dir (fs.node c).link_target) j)

  walk-Extends :
      (follow follow' : Bytes → Result NodeId) (i j : NodeId) (traversed parts : List Bytes)
      → Refines fs follow follow'
      → i < fs.next
      → walk follow fs i traversed parts ≡ ok j
      → (j < fs.next) × (walk follow' fs' i traversed parts ≡ ok j)
  unfolding walk
  walk-Extends follow follow' i j traversed [] h n e = ground arith
  walk-Extends follow follow' i j traversed (part ∷ parts) h n e = elim (Bool-cases (is_nil part)) [
    | inl f ↦ ground (arith, walk-Extends follow follow' i j traversed parts h n)
    | inr f ↦ elim (Option-cases (child_of fs i part)) [
      | inl g ↦ absurd (ground arith)
      | inr (c, g) ↦ elim (Result-cases (resolve follow fs (join traversed path_sep) c)) [
        | inr (w, k) ↦ absurd (ground arith)
        | inl (c', k) ↦
            let (l, k') =
              resolve-Extends follow follow' (join traversed path_sep) c c' h
                (child_of-lt i c part g) k in
            let g' = x.kept i c part n g in
            ground (arith, walk-Extends follow follow' c' j (traversed ++ part ∷ []) parts h l)
      ]
    ]
  ]

  pub get_node_count_links-Extends :
      (links : ℕ) (path : Bytes) (i : NodeId)
      → get_node_count_links fs links path ≡ ok i
      → (i < fs.next) × (get_node_count_links fs' links path ≡ ok i)
  unfolding get_node_count_links
  get_node_count_links-Extends zero path i e = ground (
    arith,
    v.root_allocated,
    walk-Extends (λ target. err too_many_links) (λ target. err too_many_links) root i []
        (split path path_sep) (λ t j f. absurd (cc f)) v.root_allocated,
  )
  get_node_count_links-Extends (suc links) path i e = ground (
    arith,
    v.root_allocated,
    walk-Extends (λ target. get_node_count_links fs links target)
        (λ target. get_node_count_links fs' links target) root i [] (split path path_sep)
        (get_node_count_links-Extends links) v.root_allocated,
  )

-- An existing path leads to the same node in every file system that extends one that is valid.
pub get_node-Extends :
    (fs fs' : MemFs) (path : Bytes) (i : NodeId)
    → IsValid fs
    → Extends fs fs'
    → get_node fs path ≡ ok i
    → get_node fs' path ≡ ok i
unfolding get_node
get_node-Extends fs fs' path i v x e =
    (get_node_count_links-Extends fs fs' v x max_links path i e).1

pub get_node-lt :
    (fs : MemFs) (path : Bytes) (i : NodeId) → IsValid fs → get_node fs path ≡ ok i → i < fs.next
unfolding get_node
get_node-lt fs path i v e =
    (get_node_count_links-Extends fs fs v (Extends-refl fs) max_links path i e).0
