-- ===== src/DirFs/Tests.antt =====
-- Runs on names that differ in case.
use go_apk.Base.{true, false, [], ◌∷◌, some, ◌≡◌, refl}
use go_apk.Base.Bytes.{Bytes, codes, str_eq, has_prefix, split, join}
use go_apk.Base.Maps.{Map, lookup, insert, delete}
use go_apk.Base.Paths.{clean, clean_elements, join_path}
use go_apk.DirFs.{
  to_lower, standardize_path, sanitize_path, look_on_disk, case_sensitive_on_disk, create_on_disk,
  remove_on_disk,
}
use go_apk.DirFs.Laws.{create_on_disk-once, remove_on_disk-create_on_disk}

-- What the runs compute with.
program : Unit {0}
unfolding to_lower standardize_path sanitize_path look_on_disk case_sensitive_on_disk create_on_disk
    remove_on_disk lookup insert delete str_eq has_prefix split join clean clean_elements join_path
program = tt

abbrev upper_name : Bytes
upper_name = codes "A"

abbrev lower_name : Bytes
lower_name = codes "a"

abbrev one_name : Map Bytes
one_name = (lower_name, upper_name) ∷ []

upper_lem : standardize_path upper_name ≡ some upper_name
unfolding program
upper_lem = refl

lower_lem : standardize_path lower_name ≡ some lower_name
unfolding program
lower_lem = refl

same_lem : to_lower upper_name ≡ to_lower lower_name
unfolding program
same_lem = refl

create_lem : create_on_disk (some []) upper_name ≡ some (true, some one_name)
unfolding program
create_lem = refl

create_on_disk-once_example :
    (case_sensitive_on_disk (some one_name) upper_name ≡ some true)
    × (true ≡ true
        → (case_sensitive_on_disk (some one_name) lower_name ≡ some false)
          × (create_on_disk (some one_name) lower_name ≡ some (false, some one_name)))
create_on_disk-once_example =
    create_on_disk-once [] one_name upper_name lower_name upper_name lower_name true upper_lem
      lower_lem same_lem (λ e. absurd (cc e)) create_lem

remove_on_disk-create_on_disk_example :
    let m = delete (to_lower upper_name) one_name in
    (remove_on_disk (some one_name) upper_name ≡ (true, some m))
    × (remove_on_disk (some m) upper_name ≡ (false, some m))
    × (create_on_disk (some m) lower_name
        ≡ some (true, some (insert (to_lower lower_name) lower_name m)))
remove_on_disk-create_on_disk_example =
    remove_on_disk-create_on_disk [] one_name upper_name lower_name lower_name upper_lem lower_lem
      same_lem create_lem

-- With a slash before it the name is found on disk but not removed from it; and a directory whose
-- name begins with that of the base counts as below it.
slash_tests :
    (case_sensitive_on_disk (some one_name) (codes "/A") ≡ some true)
    × (remove_on_disk (some one_name) (codes "/A") ≡ (false, some one_name))
    × (sanitize_path (codes "/a") (codes "../ab") ≡ some (codes "/ab"))
unfolding program
slash_tests = (refl, refl, refl)
