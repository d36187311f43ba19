-- ===== src/Installer/Tests.antt =====
-- Runs of `sortTarHeaders`, `AddInstalledPackage`, `InitDB` and `InstallPackages`.
use mathlib.Core.Bool.{◌&&◌, not}
use go_apk.Base.{ℕ, true, List, [], ◌∷◌, some, ◌≡◌, ◌↔◌, refl, arith, ltb, length, All, In}
use go_apk.Base.Bytes.{Bytes, codes, str_eq, str_eq_iff, str_ltb, split, join}
use go_apk.Base.Decimal.{pos}
use go_apk.Base.Maps.{lookup, insert}
use go_apk.Base.Paths.{clean, clean_elements, split_path, dir}
use go_apk.World.{sort_strings, insert_string}
use go_apk.Install.{dir_type, reg_type, Header}
use go_apk.MemFs.{permissions}
use go_apk.Installer.Sorting.{
  add_header, tree_loop, sort_files, sort_below, sort_dirs, sort_children, sort_tar_headers,
}
use go_apk.Installer.Trees.{Fits}
use go_apk.Installer.Placed.{Placed, sort_tar_headers-Placed}
use go_apk.Installer.Listing.{last_header}
use go_apk.Installer.Reached.{Reached, sort_tar_headers-Reached}

sorting : Unit {0}
unfolding str_eq str_ltb split join lookup insert clean clean_elements split_path dir sort_strings
    insert_string add_header tree_loop sort_files sort_below sort_dirs sort_children
    sort_tar_headers
sorting = tt

abbrev pub dir_header : Header
dir_header = record {
  name = codes "usr/";
  type_flag = dir_type;
  link_name = [];
  size = 0;
  mode = 493;
  file_mode = permissions 493;
  uid = pos 0;
  gid = pos 0;
  pax_records = [];
}

abbrev pub file_header : Header
file_header = record dir_header { name = codes "usr/os"; type_flag = reg_type; mode = 420 }

abbrev deep_dir : Header
deep_dir = record dir_header { name = codes "usr/lib/" }

abbrev deep_file : Header
deep_file = record file_header { name = codes "usr/lib/a"; mode = 493; uid = pos 7 }

abbrev headers : List Header
headers = deep_file ∷ dir_header ∷ deep_dir ∷ file_header ∷ []

sort_tests :
    sort_tar_headers 12 headers ≡ some (dir_header ∷ file_header ∷ deep_dir ∷ deep_file ∷ [])
unfolding sorting
sort_tests = refl

pub sorted_pair :
    sort_tar_headers 9 (file_header ∷ dir_header ∷ []) ≡ some (dir_header ∷ file_header ∷ [])
unfolding sorting
sorted_pair = refl

Fits-of :
    (bound : ℕ) (h : Header)
    → not (str_eq (clean h.name) (codes ".")) && ltb (length (clean h.name)) bound ≡ true
    → Fits bound h
Fits-of bound h e = (
  λ f. absurd (let g = (str_eq_iff (clean h.name) (codes ".")).1 f in ground arith),
  ground arith,
)

headers-Fits : All (Fits 10) headers
unfolding sorting
headers-Fits = (
  Fits-of 10 deep_file refl,
  (Fits-of 10 dir_header refl, (Fits-of 10 deep_dir refl, (Fits-of 10 file_header refl, tt))),
)

sort_tar_headers-Placed_example :
    (l : List Header) × (sort_tar_headers 12 headers ≡ some l) × Placed (codes ".") l
sort_tar_headers-Placed_example = sort_tar_headers-Placed 10 12 headers headers-Fits (omega arith)

sort_tar_headers-Reached_example :
    (l : List Header) × (sort_tar_headers 12 headers ≡ some l)
    × ((h : Header) → In h l ↔ ((c : Bytes) × Reached headers c × (last_header c headers ≡ some h)))
sort_tar_headers-Reached_example = sort_tar_headers-Reached 10 12 headers headers-Fits (omega arith)
