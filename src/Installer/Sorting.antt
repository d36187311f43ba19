-- ===== src/Installer/Sorting.antt =====
-- pkg/apk/installed.go: `sortTarHeaders`.
use Prim.Native.Nat.{zero, suc}
use go_apk.Base.{
  ℕ, Bool, true, false, List, [], ◌∷◌, ◌++◌, Option, none, some, if◌then◌else◌, is_nil, keep,
}
use go_apk.Base.Bytes.{Bytes, codes, str_eq}
use go_apk.Base.Paths.{clean, dir}
use go_apk.Base.Maps.{Map, lookup, insert, or_nil, append_at}
use go_apk.World.{sort_strings}
use go_apk.Install.{Header, dir_type}

-- `directoryChildren` and `all`.
pub record Tree : Type 0 where
  pub children : Map (List Bytes)
  pub headers : Map Header

abbrev pub no_tree : Tree
no_tree = record { children = []; headers = [] }

unfoldable pub add_header : Tree → Header → Tree
add_header t h =
    let cleaned_name = clean h.name in
    record {
      children = append_at (dir cleaned_name) cleaned_name t.children;
      headers = insert cleaned_name h t.headers;
    }

unfoldable pub tree_loop : Tree → List Header → Tree
unfolding add_header
tree_loop t [] = t
tree_loop t (h ∷ hs) = tree_loop (add_header t h) hs

abbrev pub keys : Map (List Bytes) → List Bytes
keys [] = []
keys ((k, v) ∷ m) = k ∷ keys m

abbrev pub is_dir : Header → Bool
is_dir h = elim h.type_flag [ dir_type ↦ true | _ ↦ false ]

-- The first loop: what is no directory.
unfoldable pub sort_files : Tree → List Bytes → List Header
sort_files t [] = []
sort_files t (c ∷ cs) =
    let rest = sort_files t cs in
    elim (lookup c t.headers) [ none ↦ rest | some h ↦ if is_dir h then rest else h ∷ rest ]

-- What is below a directory, by the recursive call.
unfoldable pub sort_below :
    (List Bytes → Option (List Header)) → Tree → Bytes → Option (List Header)
sort_below sort t c = let l = or_nil (lookup c t.children) in if is_nil l then some [] else sort l

abbrev pub both : Option (List Header) → Option (List Header) → Option (List Header)
both none o = none
both (some l) none = none
both (some l) (some r) = some (l ++ r)

abbrev pub put : Header → Option (List Header) → Option (List Header)
put h none = none
put h (some l) = some (h ∷ l)

-- The second loop: the directories, each with what is below it.
unfoldable pub sort_dirs :
    (List Bytes → Option (List Header)) → Tree → List Bytes → Option (List Header)
unfolding sort_below
sort_dirs sort t [] = some []
sort_dirs sort t (c ∷ cs) =
    let rest = sort_dirs sort t cs in
    elim (lookup c t.headers) [
      | none ↦ rest
      | some h ↦ if is_dir h then put h (both (sort_below sort t c) rest) else rest
    ]

-- `sortChildrenTarHeaders`: `none` is that the depth of the recursion ran out.
unfoldable pub sort_children : ℕ → Tree → List Bytes → Option (List Header)
unfolding sort_files sort_dirs
sort_children zero t children = none
sort_children (suc depth) t children =
    let sorted = sort_strings children in
    both (some (sort_files t sorted)) (sort_dirs (sort_children depth t) t sorted)

abbrev pub top_level : Bytes → Bool
top_level d = str_eq (dir d) (codes ".")

-- `sortTarHeaders`.
unfoldable pub sort_tar_headers : ℕ → List Header → Option (List Header)
unfolding tree_loop sort_children
sort_tar_headers depth headers =
    let t = tree_loop no_tree headers in
    sort_children depth t (sort_strings (keep top_level (sort_strings (keys t.children))))
