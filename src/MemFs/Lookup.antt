-- ===== src/MemFs/Lookup.antt =====
-- pkg/fs/memfs.go: `getNode`, and what looks at nodes without changing them.
use Prim.Native.Nat.{zero, suc}
use mathlib.Core.Bool.{◌||◌}
use go_apk.Base.{ℕ, Bool, List, [], ◌∷◌, ◌++◌, Option, none, some, if◌then◌else◌, is_nil}
use go_apk.Base.Bytes.{Bytes, codes, str_eq, split, join}
use go_apk.Base.Maps.{lookup}
use go_apk.Base.Paths.{is_rooted, join_path}
use go_apk.MemFs.{
  Node, NodeId, MemFs, not_exist, too_many_links, Result, ok, err, root, path_sep, max_links,
}

-- `children[part]`, which is missing in a nil map.
unfoldable pub child_of : MemFs → NodeId → Bytes → Option NodeId
child_of fs i part = elim (fs.node i).children [ none ↦ none | some m ↦ lookup part m ]

-- The path that a link names, seen from the directory in which it stands.
unfoldable pub target_path : Bytes → Bytes → Bytes
target_path dir link_target =
    if is_rooted link_target then link_target else join_path dir link_target

-- A child that is a link is followed.
unfoldable pub resolve : (Bytes → Result NodeId) → MemFs → Bytes → NodeId → Result NodeId
resolve follow fs dir c =
    if (fs.node c).mode.is_symlink then follow (target_path dir (fs.node c).link_target) else ok c

-- The loop over the parts of a path.
unfoldable pub walk :
    (Bytes → Result NodeId) → MemFs → NodeId → List Bytes → List Bytes → Result NodeId
walk follow fs i traversed [] = ok i
walk follow fs i traversed (part ∷ parts) =
    let skip = walk follow fs i traversed parts in
    if is_nil part then skip else elim (child_of fs i part) [
      | none ↦ err not_exist
      | some c ↦ elim (resolve follow fs (join traversed path_sep) c) [
        | err e ↦ err e
        | ok c' ↦ walk follow fs c' (traversed ++ part ∷ []) parts
      ]
    ]

abbrev pub is_root : Bytes → Bool
is_root path = str_eq path (codes "/") || str_eq path (codes ".")

-- `getNodeCountLinks`: `links` is how many links may still be followed.
unfoldable pub get_node_count_links : MemFs → ℕ → Bytes → Result NodeId
unfolding walk
get_node_count_links fs zero path =
    if is_root path
    then ok root
    else walk (λ target. err too_many_links) fs root [] (split path path_sep)
get_node_count_links fs (suc links) path =
    if is_root path
    then ok root
    else walk (λ target. get_node_count_links fs links target) fs root [] (split path path_sep)

-- `getNode`.
unfoldable pub get_node : MemFs → Bytes → Result NodeId
get_node fs path = get_node_count_links fs max_links path

-- `Stat`.
unfoldable pub stat : MemFs → Bytes → Result Node
stat fs path = elim (get_node fs path) [
  | err e ↦ err e
  | ok i ↦
      if (fs.node i).mode.is_symlink
      then elim (get_node fs (fs.node i).link_target) [ err e ↦ err e | ok j ↦ ok (fs.node j) ]
      else ok (fs.node i)
]

-- `Lstat`.
unfoldable pub lstat : MemFs → Bytes → Result Node
lstat fs path = elim (get_node fs path) [ err e ↦ err e | ok i ↦ ok (fs.node i) ]
