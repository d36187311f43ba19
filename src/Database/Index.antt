-- ===== src/Database/Index.antt =====
-- pkg/apk/apkindex.go: `ParsePackageIndex`.
use Prim.Native.Nat.{suc, ◌*◌}
use go_apk.Base.{ℕ, List, [], ◌∷◌, ◌++◌, ◌==◌, if◌then◌else◌, is_nil}
use go_apk.Base.Bytes.{Bytes, split}
use go_apk.Base.Scanner.{scan}
use go_apk.Database.{
  Package, no_package, no_colon, too_long, panicked, Result, ok, err, space, set_field,
}

unfoldable pub split_repeated_field : Bytes → List Bytes
split_repeated_field val = if is_nil val then [] else split val space

-- The loop over the lines. Empty lines are not counted.
unfoldable pub index_loop : List Bytes → ℕ → Package → List Package → Result (List Package)
unfolding split_repeated_field
index_loop [] nr p packages = ok packages
index_loop ([] ∷ ls) nr p packages =
    index_loop ls nr no_package (if is_nil p.name then packages else packages ++ p ∷ [])
index_loop ((token ∷ []) ∷ ls) nr p packages = err panicked
index_loop ((token ∷ colon ∷ val) ∷ ls) nr p packages =
    if colon == b':'
    then elim (set_field split_repeated_field token val p) [
      | err e ↦ err e
      | ok q ↦ index_loop ls (suc nr) q packages
    ]
    else err (no_colon nr)

-- The buffer grows up to 1 MB.
abbrev pub meg : ℕ
meg = 1024 * 1024

-- `ParsePackageIndex`: the error of the scanner comes with the packages before it.
unfoldable pub parse_package_index : Bytes → Result (List Package)
unfolding index_loop
parse_package_index s =
    let (lines, fits) = scan meg s in
    elim (index_loop lines 1 no_package []) [
      | err e ↦ err e
      | ok packages ↦ if fits then ok packages else err (too_long packages)
    ]
