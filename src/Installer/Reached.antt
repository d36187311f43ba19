-- ===== src/Installer/Reached.antt =====
-- pkg/apk/installed.go: which headers of an archive `sortTarHeaders` lists.
use go_apk.Base.{
  ℕ, true, false, List, Option, none, some, ◌≡◌, ◌∙◌, ◌↔◌, sym, refl, inl, inr, In, All,
}
use Prim.Native.Nat.{◌<◌}
use go_apk.Base.Bytes.{Bytes, codes, str_eq_iff}
use go_apk.Base.Maps.{lookup, or_nil}
use go_apk.Base.Paths.{dir}
use go_apk.Install.{Header, TypeFlag, dir_type, reg_type, symlink_type, link_type, other_type}
use go_apk.Installer.Sorting.{Tree, no_tree, tree_loop, keys, is_dir, top_level, sort_tar_headers}
use go_apk.Installer.Trees.{Fits}
use go_apk.Installer.Placed.{sort_tar_headers-Placed}
use go_apk.Installer.Found.{sort_tar_headers-Found}
use go_apk.Installer.Complete.{Within, here, deeper, sort_tar_headers-In}
use go_apk.Installer.Listing.{last_header, Lists, tree_loop-last, tree_loop-Lists, tree_loop-keys}

-- A path that is reached from a path at the top that has entries, through directories: the last header
-- of each path on the way is that of a directory.
pub data Reached (hs : List Header) : Bytes → Type 0 where
  top : {c d : Bytes} → Lists hs c d → dir c ≡ codes "." → Reached hs c
  below :
      {c d : Bytes} (h : Header)
      → Reached hs c
      → last_header c hs ≡ some h
      → h.type_flag ≡ dir_type
      → Lists hs c d
      → Reached hs d

Within-then :
    (t : Tree) (c d e : Bytes) (h : Header)
    → Within t c d
    → lookup d t.headers ≡ some h
    → is_dir h ≡ true
    → In e (or_nil (lookup d t.children))
    → Within t c e
Within-then t _ _ e h (here d) f g i = deeper d e e h f g i (here e)
Within-then t _ _ e h (deeper c b d x k l j w) f g i =
    deeper c b e x k l j (Within-then t b d e h w f g i)

is_dir_lem : (h : Header) → h.type_flag ≡ dir_type → is_dir h ≡ true
is_dir_lem h e = rw e refl

of_is_dir : (h : Header) → is_dir h ≡ true → h.type_flag ≡ dir_type
of_is_dir h e = go h.type_flag e
  where
    go : (t : TypeFlag) → (elim t [ dir_type ↦ true | _ ↦ false ]) ≡ true → t ≡ dir_type
    go dir_type e = refl
    go reg_type e = absurd (cc e)
    go symlink_type e = absurd (cc e)
    go link_type e = absurd (cc e)
    go other_type e = absurd (cc e)

module _ (hs : List Header) where
  abbrev whole : Tree
  whole = tree_loop no_tree hs

  last_lem : (c : Bytes) → lookup c whole.headers ≡ last_header c hs
  unfolding lookup
  last_lem c = tree_loop-last c no_tree hs ∙ same (last_header c hs)
    where
      same : (o : Option Header) → (elim o [ some h ↦ some h | none ↦ none ]) ≡ o
      same none = refl
      same (some h) = refl

  entries_lem : (k d : Bytes) → In d (or_nil (lookup k whole.children)) ↔ Lists hs k d
  unfolding lookup
  entries_lem k d =
      let e = tree_loop-Lists k d no_tree hs in
      (λ x. elim (e.0 x) [ inl i ↦ absurd i | inr l ↦ l ], λ l. e.1 (inr l))

  keys_lem : (k : Bytes) → In k (keys whole.children) ↔ ((d : Bytes) × Lists hs k d)
  keys_lem k =
      let e = tree_loop-keys k no_tree hs in
      (λ x. elim (e.0 x) [ inl i ↦ absurd i | inr l ↦ l ], λ l. e.1 (inr l))

  Reached-Within :
      (c : Bytes)
      → Reached hs c
      → (r : Bytes) × In r (keys whole.children) × (top_level r ≡ true) × Within whole r c
  Reached-Within c (top {d = d} l e) =
      (c, (keys_lem c).1 (d, l), (str_eq_iff (dir c) (codes ".")).1 e, here c)
  Reached-Within d (below {c = c} h r e f l) =
      let (a, i, g, w) = Reached-Within c r in
      (
        a,
        i,
        g,
        Within-then whole a c d h w (last_lem c ∙ e) (is_dir_lem h f) ((entries_lem c d).1 l),
      )

  Within-Reached : (c d : Bytes) → Reached hs c → Within whole c d → Reached hs d
  Within-Reached _ _ r (here c) = r
  Within-Reached _ _ r (deeper c b d x k l j w) =
      Within-Reached b d (below x r (sym (last_lem c) ∙ k) (of_is_dir x l) ((entries_lem c b).0 j))
        w

-- Where no header is of the working directory itself, and the depth is above the length of every
-- path, `sortTarHeaders` ends, and its result has exactly the last headers of those paths that are
-- reached from a path at the top that has entries below it, through paths whose last header is that
-- of a directory.
pub sort_tar_headers-Reached :
    (bound depth : ℕ) (headers : List Header)
    → All (Fits bound) headers
    → bound < depth
    → (l : List Header) × (sort_tar_headers depth headers ≡ some l)
      × ((h : Header)
          → In h l ↔ ((c : Bytes) × Reached headers c × (last_header c headers ≡ some h)))
sort_tar_headers-Reached bound depth headers f enough =
    let (l, s, _) = sort_tar_headers-Placed bound depth headers f enough in
    (
      l,
      s,
      λ h. (
        λ i.
            let (g, k) = sort_tar_headers-Found depth headers l h s i in
            let (d, e) = (keys_lem headers g.from).0 g.member in
            (
              g.to,
              Within-Reached headers g.from g.to (top e ((str_eq_iff (dir g.from) (codes ".")).0 k))
                  g.within,
              sym (last_lem headers g.to) ∙ g.header,
            ),
        λ (c, r, e).
            let (a, i, k, w) = Reached-Within headers c r in
            sort_tar_headers-In depth headers l a c h s i k w (last_lem headers c ∙ e),
      ),
    )
