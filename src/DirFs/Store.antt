-- ===== src/DirFs/Store.antt =====
-- pkg/fs/rwosfs.go: a directory on disk with a file system in memory beside it.
use go_apk.Base.{ℕ, Bool, List, none, some, if◌then◌else◌}
use go_apk.Base.Bytes.{Bytes}
use go_apk.Base.Decimal.{ℤ}
use go_apk.MemFs.{Mode, MemFs, Error, Op}
use go_apk.MemFs
use go_apk.MemFs.Files.{Flags}
use go_apk.DirFs.{CaseMap, case_sensitive_on_disk, create_on_disk, remove_on_disk}

pub data DiskError : Type 0 where
  no_permission other_error : DiskError

-- What package os returns.
pub data OnDisk (A : Type 0) : Type 0 where
  got : A → OnDisk A
  denied : DiskError → OnDisk A

-- What `os.Stat` says.
pub record DiskInfo : Type 0 where
  pub name : Bytes
  pub size : ℕ
  pub is_dir : Bool
  pub mode : Mode

-- Package os on a disk: `D` is its state, and `F` are its open files.
pub record Os (D F : Type 0) : Type 0 where
  pub open_to_read : Bytes → D → D × OnDisk F
  pub open_file : Bytes → Flags → Mode → D → D × OnDisk F
  pub create : Bytes → D → D × OnDisk F
  pub stat : Bytes → D → OnDisk DiskInfo
  pub read_dir : Bytes → D → OnDisk (List DiskInfo)
  pub read_file : Bytes → D → OnDisk Bytes
  pub write_file : Bytes → Bytes → Mode → D → D × OnDisk (Unit {0})
  pub remove : Bytes → D → D × OnDisk (Unit {0})
  pub link : Bytes → Bytes → D → D × OnDisk (Unit {0})
  pub symlink : Bytes → Bytes → D → D × OnDisk (Unit {0})
  pub mkdir : Bytes → Mode → D → D × OnDisk (Unit {0})
  pub mkdir_all : Bytes → Mode → D → D × OnDisk (Unit {0})
  pub chmod : Bytes → Mode → D → D × OnDisk (Unit {0})
  pub chown : Bytes → ℤ → ℤ → D → D × OnDisk (Unit {0})
  pub mknod : Bytes → Mode → ℕ → D → D × OnDisk (Unit {0})

-- `empty_name` is the index out of range in `standardizePath`.
pub data Failure : Type 0 where
  in_memory : Error → Failure
  on_disk : DiskError → Failure
  tainted no_chmod still_denied empty_name out_of_rounds : Failure

pub data Outcome (A : Type 0) : Type 0 where
  done : A → Outcome A
  failed : Failure → Outcome A

-- `dirFS` but for its base: the file system in memory is `overrides`.
pub record Store (D : Type 0) : Type 0 where
  pub case_map : CaseMap
  pub overrides : MemFs
  pub disk : D

-- A step on the store.
abbrev pub Step : Type 0 → Type 0 → Type 0
Step D A = Store D → Store D × Outcome A

module _ {D : Type 0} where
  module _ {A B : Type 0} where
    abbrev pub chain : Store D × Outcome A → (A → Step D B) → Store D × Outcome B
    chain (s, done a) f = f a s
    chain (s, failed e) f = (s, failed e)

    infixl 5 ◌>=>◌
    abbrev pub ◌>=>◌ : Step D A → (A → Step D B) → Step D B
    m >=> f = λ s. chain (m s) f

  module _ {A : Type 0} where
    abbrev pub as_memory : Store D → MemFs × MemFs.Result A → Store D × Outcome A
    as_memory s (fs, MemFs.ok a) = (record s { overrides = fs }, done a)
    as_memory s (fs, MemFs.err e) = (record s { overrides = fs }, failed (in_memory e))

    abbrev pub as_disk : Store D → D × OnDisk A → Store D × Outcome A
    as_disk s (d, got a) = (record s { disk = d }, done a)
    as_disk s (d, denied e) = (record s { disk = d }, failed (on_disk e))

    -- An operation in memory, and one on disk.
    abbrev pub memory : Op A → Step D A
    memory op s = as_memory s (op s.overrides)

    abbrev pub disk : (D → D × OnDisk A) → Step D A
    disk op s = as_disk s (op s.disk)

    abbrev pub look_memory : (MemFs → MemFs.Result A) → Step D A
    look_memory f = memory (λ fs. (fs, f fs))

    abbrev pub look_disk : (D → OnDisk A) → Step D A
    look_disk f = disk (λ d. (d, f d))

  -- Errors of the disk are left.
  abbrev pub try_disk : {A : Type 0} → (D → D × A) → Step D (Unit {0})
  try_disk op s = (record s { disk = (op s.disk).0 }, done tt)

  abbrev pub skip : Step D (Unit {0})
  skip s = (s, done tt)

  -- Whether the name is the variant on disk, is created there, or is removed from there.
  unfoldable pub is_on_disk : Bytes → Step D Bool
  is_on_disk p s = elim (case_sensitive_on_disk s.case_map p) [
    | none ↦ (s, failed empty_name)
    | some b ↦ (s, done b)
  ]

  unfoldable pub creates : Bytes → Step D Bool
  creates p s = elim (create_on_disk s.case_map p) [
    | none ↦ (s, failed empty_name)
    | some (b, m) ↦ (record s { case_map = m }, done b)
  ]

  unfoldable pub removes : Bytes → Step D Bool
  removes p s = let r = remove_on_disk s.case_map p in (record s { case_map = r.1 }, done r.0)

  abbrev pub when : Bool → Step D (Unit {0}) → Step D (Unit {0})
  when b m s = if b then m s else skip s
