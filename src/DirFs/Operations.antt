-- ===== src/DirFs/Operations.antt =====
-- pkg/fs/rwosfs.go: the operations of `dirFS`, on disk and in memory.
use go_apk.Base.{ℕ, Bool, true, List, [], ◌∷◌, Option, none, some, if◌then◌else◌, length}
use go_apk.Base.Bytes.{Bytes, str_eq, str_ltb, has_prefix}
use go_apk.Base.Decimal.{ℤ}
use go_apk.Base.Maps.{Map}
use go_apk.Base.Paths
use go_apk.Base.Paths.{clean, join_path}
use go_apk.MemFs
use go_apk.MemFs.{Mode, permissions, Node, MemFs}
use go_apk.MemFs.Entries
use go_apk.MemFs.Entries.{Unix}
use go_apk.MemFs.Lookup
use go_apk.MemFs.Attributes
use go_apk.MemFs.Files
use go_apk.MemFs.Files.{Flags, MemFile}
use go_apk.DirFs.{sanitize_path}
use go_apk.DirFs.Store.{
  no_permission, OnDisk, got, denied, DiskInfo, Os, in_memory, on_disk, tainted, no_chmod,
  still_denied, out_of_rounds, Outcome, done, failed, Store, Step, ◌>=>◌, memory, disk, look_memory,
  look_disk, try_disk, is_on_disk, creates, removes, when,
}

-- An open file, on disk or in memory; `perms` is what `Close` sets again.
pub data File (F : Type 0) : Type 0 where
  disk_file : F → (perms : Option Mode) → File F
  memory_file : MemFile → File F

-- `fileInfo`: name, size and kind are those of the file, and the mode is that in memory.
pub record FileInfo : Type 0 where
  pub name : Bytes
  pub size : ℕ
  pub is_dir : Bool
  pub node : Node

-- `dirEntry`: the entry in memory, and that on disk if there is one.
pub record Entry : Type 0 where
  pub name : Bytes
  pub mem : Node
  pub on_disk : Option DiskInfo

-- The last of the infos of that name.
unfoldable pub info_of : Bytes → List DiskInfo → Option DiskInfo
info_of name [] = none
info_of name (i ∷ infos) = elim (info_of name infos) [
  | some j ↦ some j
  | none ↦ if str_eq i.name name then some i else none
]

unfoldable pub on_disk_too : List DiskInfo → List (Bytes × Node) → List Entry
unfolding info_of
on_disk_too infos [] = []
on_disk_too infos ((name, n) ∷ nodes) =
    record { name = name; mem = n; on_disk = info_of name infos } ∷ on_disk_too infos nodes

-- `sort.Slice` by name; no two entries of a directory have one name.
unfoldable pub insert_entry : Entry → List Entry → List Entry
insert_entry e [] = e ∷ []
insert_entry e (f ∷ fs) = if str_ltb f.name e.name then f ∷ insert_entry e fs else e ∷ f ∷ fs

unfoldable pub sort_entries : List Entry → List Entry
unfolding insert_entry
sort_entries [] = []
sort_entries (e ∷ es) = insert_entry e (sort_entries es)

module _ {D F : Type 0} (os : Os D F) (base : Bytes) where
  -- `filepath.Join(f.base, name)`.
  abbrev pub path_of : Bytes → Bytes
  path_of name = join_path base name

  -- A file that may not be read is opened once more with other permissions; 0o600 is 384.
  unfoldable pub open_again : Bytes → Step D (File F)
  open_again fullpath s = elim (os.stat fullpath s.disk) [
    | denied e ↦ (s, failed (on_disk e))
    | got info ↦ elim ((os.chmod fullpath (permissions 384) s.disk).1) [
      | denied e ↦
          (record s { disk = (os.chmod fullpath (permissions 384) s.disk).0 }, failed no_chmod)
      | got u ↦
          let d = (os.chmod fullpath (permissions 384) s.disk).0 in
          let r = os.open_to_read fullpath d in
          elim r.1 [
            | denied e ↦ (record s { disk = r.0 }, failed still_denied)
            | got f ↦ (record s { disk = r.0 }, done (disk_file f (some info.mode)))
          ]
    ]
  ]

  abbrev pub settle_open : Bytes → Store D → D × OnDisk F → Store D × Outcome (File F)
  settle_open fullpath s (d, got f) = (record s { disk = d }, done (disk_file f none))
  settle_open fullpath s (d, denied no_permission) = open_again fullpath (record s { disk = d })
  settle_open fullpath s (d, denied e) = (record s { disk = d }, failed (on_disk e))

  -- `open`, which `Open` and `OpenReaderAt` call.
  unfoldable pub open_named : Bytes → Step D (File F)
  unfolding open_again
  open_named name s = elim (sanitize_path base name) [
    | none ↦ (s, failed tainted)
    | some fullpath ↦
        (is_on_disk name >=> λ b s.
        if b
        then settle_open fullpath s (os.open_to_read fullpath s.disk)
        else (memory (Files.open_to_read name) >=> λ f s. (s, done (memory_file f))) s)
          s
  ]

  abbrev pub open_on_disk : Bytes → Flags → Mode → Step D (File F)
  open_on_disk name flag perm =
      disk (os.open_file (path_of name) flag perm) >=> λ f s. (s, done (disk_file f none))

  abbrev pub open_in_memory : Bytes → Flags → Mode → Step D (File F)
  open_in_memory name flag perm =
      memory (Files.open_file name flag perm) >=> λ f s. (s, done (memory_file f))

  -- `OpenFile`.
  unfoldable pub open_file : Bytes → Flags → Mode → Step D (File F)
  open_file name flag perm =
      if flag.create
      then (open_in_memory name flag perm >=> λ f.
          creates name >=> λ b s. if b then open_on_disk name flag perm s else (s, done f))
      else (is_on_disk name >=> λ b.
          if b then open_on_disk name flag perm else open_in_memory name flag perm)

  -- `Create`.
  unfoldable pub create : Bytes → Step D (File F)
  create name = memory (Files.create_file name) >=> λ f. creates name >=> λ b s.
      if b
      then (disk (os.create (path_of name)) >=> λ g s. (s, done (disk_file g none))) s
      else (s, done (memory_file f))

  abbrev pub node_info : Bytes → Node → FileInfo
  node_info name n = record { name = name; size = length n.contents; is_dir = n.dir; node = n }

  -- `Stat`.
  unfoldable pub stat : Bytes → Step D FileInfo
  stat name = look_memory (λ fs. Lookup.stat fs name) >=> λ n. is_on_disk name >=> λ b s.
      if b
      then (look_disk (os.stat (path_of name)) >=> λ i s.
            (s, done (record { name = i.name; size = i.size; is_dir = i.is_dir; node = n })))
          s
      else (s, done (node_info (Paths.base name) n))

  -- `Lstat`.
  unfoldable pub lstat : Bytes → Step D Node
  lstat name = look_memory (λ fs. Lookup.lstat fs name)

  -- `Readlink`.
  unfoldable pub readlink : Bytes → Step D Bytes
  readlink name = look_memory (λ fs. Entries.readlink fs name)

  -- `Remove`.
  unfoldable pub remove : Bytes → Step D (Unit {0})
  remove name = memory (Entries.remove name) >=> λ u.
      removes name >=> λ b. when b (disk (os.remove (path_of name)))

  -- `ReadDir`: what is on disk is listed where it is in memory too.
  unfoldable pub read_dir : Bytes → Step D (List Entry)
  unfolding sort_entries on_disk_too
  read_dir name = is_on_disk name >=> λ b s.
      ((if b then look_disk (os.read_dir (path_of name)) else (λ s. (s, done []))) >=> λ infos.
      look_memory (λ fs. Attributes.read_dir fs name) >=> λ nodes s.
      (s, done (sort_entries (on_disk_too infos nodes))))
        s

  abbrev pub read_memory : ℕ → Bytes → Step D Bytes
  read_memory rounds name s = elim (Files.read_file rounds s.overrides name) [
    | none ↦ (s, failed out_of_rounds)
    | some (MemFs.err e) ↦ (s, failed (in_memory e))
    | some (MemFs.ok b) ↦ (s, done b)
  ]

  -- `ReadFile`: `rounds` is for the file system in memory.
  unfoldable pub read_file : ℕ → Bytes → Step D Bytes
  read_file rounds name = is_on_disk name >=> λ b.
      if b then look_disk (os.read_file (path_of name)) else read_memory rounds name

  -- What is on disk is in memory without contents.
  abbrev pub write_where : Bytes → Bytes → Mode → Bool → Step D (Unit {0})
  write_where name b mode c = when c (disk (os.write_file (path_of name) b mode)) >=> λ u.
      memory (Files.write_file name (if c then [] else b) mode)

  -- `WriteFile`.
  unfoldable pub write_file : Bytes → Bytes → Mode → Step D (Unit {0})
  write_file name b mode = creates name >=> write_where name b mode

  -- `Readnod`.
  unfoldable pub readnod : Unix → Bytes → Step D ℕ
  readnod unix name = is_on_disk name >=> λ b.
      when b (look_disk (os.stat (path_of name)) >=> λ i s. (s, done tt)) >=> λ u.
      look_memory (λ fs. Entries.readnod unix fs name)

  -- `Link`.
  unfoldable pub link : Bytes → Bytes → Step D (Unit {0})
  link old_name new_name =
      let target = clean (path_of old_name) in
      if has_prefix target base
      then (creates new_name >=> λ b. when b (disk (os.link target (path_of new_name))) >=> λ u.
          memory (Entries.link old_name new_name))
      else (λ s. (s, failed tainted))

  -- `Symlink`.
  unfoldable pub symlink : Bytes → Bytes → Step D (Unit {0})
  symlink old_name new_name = creates new_name >=> λ b.
      when b (disk (os.symlink old_name (path_of new_name))) >=> λ u.
      memory (Entries.symlink old_name new_name)

  abbrev pub full_perm : Mode → Mode
  full_perm perm = record perm { is_dir = true }

  -- `MkdirAll` and `Mkdir`.
  unfoldable pub mkdir_all : Bytes → Mode → Step D (Unit {0})
  mkdir_all name perm = creates name >=> λ b.
      when b (disk (os.mkdir_all (path_of name) (full_perm perm))) >=> λ u.
      memory (Entries.mkdir_all name (full_perm perm))

  unfoldable pub mkdir : Bytes → Mode → Step D (Unit {0})
  mkdir name perm = creates name >=> λ b.
      when b (disk (os.mkdir (path_of name) (full_perm perm))) >=> λ u.
      memory (Entries.mkdir name (full_perm perm))

  -- `Chmod` and `Chown`.
  unfoldable pub chmod : Bytes → Mode → Step D (Unit {0})
  chmod path perm = is_on_disk path >=> λ b.
      when b (try_disk (os.chmod (path_of path) perm)) >=> λ u. memory (Attributes.chmod path perm)

  unfoldable pub chown : Bytes → ℤ → ℤ → Step D (Unit {0})
  chown path uid gid = is_on_disk path >=> λ b.
      when b (try_disk (os.chown (path_of path) uid gid)) >=> λ u.
      memory (Attributes.chown path uid gid)

  -- A device that cannot be made on disk is an empty file there.
  abbrev pub or_file : Bytes → Store D → D × OnDisk (Unit {0}) → Store D × Outcome (Unit {0})
  or_file name s (d, got u) = (record s { disk = d }, done tt)
  or_file name s (d, denied e) =
      disk (os.write_file (path_of name) [] (permissions 0)) (record s { disk = d })

  -- `Mknod`.
  unfoldable pub mknod : Unix → Bytes → Mode → ℕ → Step D (Unit {0})
  mknod unix name mode dev = is_on_disk name >=> λ b.
      when b (λ s. or_file name s (os.mknod (path_of name) mode dev s.disk)) >=> λ u.
      memory (Entries.mknod unix name mode dev)

  -- `SetXattr`, `GetXattr`, `RemoveXattr` and `ListXattrs`.
  unfoldable pub set_xattr : Bytes → Bytes → Bytes → Step D (Unit {0})
  set_xattr path attr value = memory (Attributes.set_xattr path attr value)

  unfoldable pub get_xattr : Bytes → Bytes → Step D Bytes
  get_xattr path attr = look_memory (λ fs. Attributes.get_xattr fs path attr)

  unfoldable pub remove_xattr : Bytes → Bytes → Step D (Unit {0})
  remove_xattr path attr = memory (Attributes.remove_xattr path attr)

  unfoldable pub list_xattrs : Bytes → Step D (Map Bytes)
  list_xattrs path = look_memory (λ fs. Attributes.list_xattrs fs path)
