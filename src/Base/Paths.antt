-- ===== src/Base/Paths.antt =====
-- `filepath.Clean` and `filepath.Join` of slash-separated paths.
use mathlib.Core.Bool.{◌&&◌}
use mathlib.Core.List.{reverse}
use go_apk.Base.Names.{ℕ, Bool, false, List, [], ◌∷◌, ◌++◌, ◌≡◌, refl}
use go_apk.Base.Tests.{◌==◌, if◌then◌else◌}
use go_apk.Base.Lists.{is_nil}
use go_apk.Base.Bytes.{Bytes, codes, str_eq, split, join}

abbrev pub slash : ℕ
slash = b'/'

abbrev pub is_rooted : Bytes → Bool
is_rooted [] = false
is_rooted (c ∷ s) = c == slash

-- An element on top of those that are kept, the last of them first.
abbrev pub step_out : Bool → List Bytes → List Bytes
step_out rooted [] = if rooted then [] else codes ".." ∷ []
step_out rooted (e ∷ kept) = if str_eq e (codes "..") then codes ".." ∷ e ∷ kept else kept

abbrev pub step_in : Bool → List Bytes → Bytes → List Bytes
step_in rooted kept e =
    if is_nil e
    then kept
    else if str_eq e (codes ".")
    then kept
    else if str_eq e (codes "..")
    then step_out rooted kept
    else e ∷ kept

unfoldable pub clean_elements : Bool → List Bytes → List Bytes → List Bytes
unfolding str_eq
clean_elements rooted kept [] = reverse kept
clean_elements rooted kept (e ∷ es) = clean_elements rooted (step_in rooted kept e) es

unfoldable pub clean : Bytes → Bytes
unfolding clean_elements
clean s =
    let rooted = is_rooted s in
    let path = join (clean_elements rooted [] (split s slash)) slash in
    if rooted then slash ∷ path else if is_nil path then codes "." else path

unfoldable pub join_path : Bytes → Bytes → Bytes
unfolding clean
join_path d t =
    if is_nil d
    then (if is_nil t then [] else clean t)
    else if is_nil t
    then clean d
    else clean (d ++ slash ∷ t)

-- What stands up to the last slash, that included, and what follows it.
unfoldable pub split_path : Bytes → Bytes × Bytes
split_path [] = ([], [])
split_path (c ∷ s) =
    let (d, b) = split_path s in
    if is_nil d then (if c == slash then (c ∷ [], b) else ([], c ∷ b)) else (c ∷ d, b)

-- `filepath.Dir`.
unfoldable pub dir : Bytes → Bytes
unfolding split_path clean
dir path = clean (split_path path).0

unfoldable pub drop_slashes : Bytes → Bytes
drop_slashes [] = []
drop_slashes (c ∷ s) = let r = drop_slashes s in if (c == slash) && is_nil r then [] else c ∷ r

-- `filepath.Base`.
unfoldable pub base : Bytes → Bytes
unfolding split_path drop_slashes
base path =
    if is_nil path
    then codes "."
    else (let b = (split_path (drop_slashes path)).1 in if is_nil b then slash ∷ [] else b)

clean_tests :
    (clean (codes "a/./b//../c/") ≡ codes "a/c")
    × (clean (codes "/../x") ≡ codes "/x")
    × (clean (codes "a/../..") ≡ codes "..")
    × (dir (codes "usr/lib/x") ≡ codes "usr/lib")
    × (dir (codes "x") ≡ codes ".")
    × (dir (codes "/x") ≡ codes "/")
    × (base (codes "usr/lib/") ≡ codes "lib")
    × (base (codes "//") ≡ codes "/")
    × (join_path (codes "usr/bin") (codes "sh") ≡ codes "usr/bin/sh")
unfolding dir base clean clean_elements join_path split join str_eq
clean_tests = (refl, refl, refl, refl, refl, refl, refl, refl, refl)
