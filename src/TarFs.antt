-- ===== src/TarFs.antt =====
-- internal/tarfs/tarfs.go: the file system that reads an archive.
pub mod Laws
pub mod Links
pub mod Tests
use Prim.Native.Nat.{zero, suc}
use go_apk.Base.{
  ℕ, Bool, true, false, List, [], ◌∷◌, ◌++◌, Option, none, some, if◌then◌else◌, length,
}
use go_apk.Base.Bytes.{Bytes, codes, str_eq}
use go_apk.Base.Maps.{Map, lookup, insert, append_at}
use go_apk.Base.Paths.{dir, is_rooted, join_path}
use go_apk.Install.{Header, TypeFlag, symlink_type, link_type, dir_type, reg_type, other_type}

-- `Entry`: the `fs.FileInfo` is made out of the header, so that an entry stands for it too.
pub record Entry : Type 0 where
  pub header : Header
  pub offset : ℕ
  pub dir : Bytes

-- `FS`, but for the reader.
pub record TarFs : Type 0 where
  pub files : List Entry
  pub index : Map ℕ
  pub dirs : Map (List Entry)

pub data Error : Type 0 where
  not_exist not_link too_many_hops broken_archive : Error

pub data Result (A : Type 0) : Type 0 where
  ok : A → Result A
  err : Error → Result A

abbrev pub nth {ℓ} : {A : Type ℓ} → ℕ → List A → Option A
nth n [] = none
nth zero (x ∷ xs) = some x
nth (suc n) (x ∷ xs) = nth n xs

-- The entry of a name.
unfoldable pub indexed : List Entry → Map ℕ → Bytes → Option Entry
indexed files index name = elim (lookup name index) [ none ↦ none | some i ↦ nth i files ]

-- Symbolic links and hard links.
abbrev pub is_link : TypeFlag → Bool
is_link dir_type = false
is_link reg_type = false
is_link symlink_type = true
is_link link_type = true
is_link other_type = false

-- `Readlink`.
unfoldable pub readlink : TarFs → Bytes → Result Bytes
readlink fsys name = elim (indexed fsys.files fsys.index name) [
  | none ↦ err not_exist
  | some e ↦ if is_link e.header.type_flag then ok e.header.link_name else err not_link
]

-- The name to which a link leads.
unfoldable pub link_target : Entry → Bytes
link_target e =
    if is_rooted e.header.link_name then e.header.link_name else join_path e.dir e.header.link_name

-- `maxHops`.
abbrev pub max_hops : ℕ
max_hops = 64

-- `open`: `hops` is how many links may still be followed.
unfoldable pub open_entry : ℕ → TarFs → Bytes → Result Entry
open_entry zero fsys name = elim (indexed fsys.files fsys.index name) [
  | none ↦ err not_exist
  | some e ↦ if is_link e.header.type_flag then err too_many_hops else ok e
]
open_entry (suc hops) fsys name = elim (indexed fsys.files fsys.index name) [
  | none ↦ err not_exist
  | some e ↦ if is_link e.header.type_flag then open_entry hops fsys (link_target e) else ok e
]

-- `Open`.
unfoldable pub open_file : TarFs → Bytes → Result Entry
open_file fsys name = open_entry max_hops fsys name

-- What `Stat` tells of: an entry, or the root that it makes up.
pub data Info : Type 0 where
  of_entry : Entry → Info
  of_root : Info

-- `Stat`.
unfoldable pub stat : TarFs → Bytes → Result Info
stat fsys name = elim (indexed fsys.files fsys.index name) [
  | some e ↦ ok (of_entry e)
  | none ↦ if str_eq name (codes ".") then ok of_root else err not_exist
]

-- `ReadDir`.
unfoldable pub read_dir : TarFs → Bytes → List Entry
read_dir fsys name = elim (lookup name fsys.dirs) [ none ↦ [] | some entries ↦ entries ]

-- The loop over the archive: headers with the offsets of their contents.
unfoldable pub index_loop : List (Header × ℕ) → List Entry → Map ℕ → List Entry × Map ℕ
index_loop [] files index = (files, index)
index_loop ((h, offset) ∷ headers) files index =
    index_loop headers (files ++ record { header = h; offset = offset; dir = dir h.name } ∷ [])
      (insert h.name (length files) index)

unfoldable pub list_dirs : List Entry → Map (List Entry) → Map (List Entry)
list_dirs [] dirs = dirs
list_dirs (e ∷ files) dirs = list_dirs files (append_at e.dir e dirs)

abbrev pub sort_dirs : (List Entry → List Entry) → Map (List Entry) → Map (List Entry)
sort_dirs sort [] = []
sort_dirs sort ((name, entries) ∷ dirs) = (name, sort entries) ∷ sort_dirs sort dirs

-- `New`: `broken` is that an error follows the entries, and `sort` is `slices.SortFunc` by name.
unfoldable pub new_tar_fs : (List Entry → List Entry) → Bool → List (Header × ℕ) → Result TarFs
new_tar_fs sort broken headers =
    if broken
    then err broken_archive
    else let found = index_loop headers [] [] in
      ok (record { files = found.0; index = found.1; dirs = sort_dirs sort (list_dirs found.0 []) })
