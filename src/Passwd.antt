-- ===== src/Passwd.antt =====
-- pkg/passwd/passwd.go and pkg/passwd/group.go: the entries of /etc/passwd and /etc/group, parsed
-- from lines and written as lines.
pub mod Users
pub mod Groups
pub mod Tests
use Prim.Native.Nat.{◌+◌, ◌-◌, ◌%◌, ◌^◌}
use go_apk.Base.{ℕ, Bool, true, false, List, [], ◌∷◌, ◌++◌, Option, none, some, if◌then◌else◌}
use go_apk.Base.Bytes.{Bytes, split, join}
use go_apk.Base.Decimal.{ℤ, pos, negsuc, atoi, format}
use go_apk.Base.Scanner.{newline, max_token, scan, trim_space}

pub data Error : Type 0 where
  malformed bad_uid bad_gid scan_failed open_failed : Error

pub data Result {ℓ} (A : Type ℓ) : Type ℓ where
  ok : A → Result A
  err : Error → Result A

abbrev pub u32_mod : ℕ
u32_mod = 2 ^ 32

-- `uint32(n)` of an `int`: the low 32 bits in two's complement.
unfoldable pub to_u32 : ℤ → ℕ
to_u32 (pos n) = n % u32_mod
to_u32 (negsuc n) = u32_mod - 1 - n % u32_mod

pub record UserEntry : Type 0 where
  pub user_name : Bytes
  pub password : Bytes
  pub uid : ℕ
  pub gid : ℕ
  pub info : Bytes
  pub home_dir : Bytes
  pub shell : Bytes

pub record GroupEntry : Type 0 where
  pub group_name : Bytes
  pub password : Bytes
  pub gid : ℕ
  pub members : List Bytes

abbrev pub user_of : Bytes → Bytes → Option ℤ → Option ℤ → Bytes → Bytes → Bytes → Result UserEntry
user_of name password none gid info home shell = err bad_uid
user_of name password (some uid) none info home shell = err bad_gid
user_of name password (some uid) (some gid) info home shell = ok (record {
  user_name = name;
  password = password;
  uid = to_u32 uid;
  gid = to_u32 gid;
  info = info;
  home_dir = home;
  shell = shell;
})

unfoldable pub user_of_parts : List Bytes → Result UserEntry
user_of_parts (name ∷ password ∷ uid ∷ gid ∷ info ∷ home ∷ shell ∷ []) =
    user_of name password (atoi uid) (atoi gid) info home shell
user_of_parts parts = err malformed

-- `UserEntry.Parse`.
unfoldable pub parse_user : Bytes → Result UserEntry
parse_user line = user_of_parts (split (trim_space line) b':')

-- `UserEntry.Write`: the line without its newline, and the line.
unfoldable pub user_line : UserEntry → Bytes
user_line u =
    join
      (u.user_name ∷ u.password ∷ format u.uid ∷ format u.gid ∷ u.info ∷ u.home_dir ∷ u.shell ∷ [])
      b':'

unfoldable pub write_user : UserEntry → Bytes
unfolding user_line
write_user u = user_line u ++ newline ∷ []

abbrev pub group_of : Bytes → Bytes → Option ℤ → Bytes → Result GroupEntry
group_of name password none members = err bad_gid
group_of name password (some gid) members = ok (record {
  group_name = name;
  password = password;
  gid = to_u32 gid;
  members = split members b',';
})

unfoldable pub group_of_parts : List Bytes → Result GroupEntry
group_of_parts (name ∷ password ∷ gid ∷ members ∷ []) = group_of name password (atoi gid) members
group_of_parts parts = err malformed

-- `GroupEntry.Parse`.
unfoldable pub parse_group : Bytes → Result GroupEntry
parse_group line = group_of_parts (split (trim_space line) b':')

-- `GroupEntry.Write`.
unfoldable pub group_line : GroupEntry → Bytes
group_line g = join (g.group_name ∷ g.password ∷ format g.gid ∷ join g.members b',' ∷ []) b':'

unfoldable pub write_group : GroupEntry → Bytes
unfolding group_line
write_group g = group_line g ++ newline ∷ []

-- The loop of `Load` over the lines, generic in the entry: the entries so far, and the error.
module _ {E : Type 0} (parse : Bytes → Result E) where
  unfoldable pub load_lines : List E → List Bytes → Bool → List E × Option Error
  load_lines entries [] true = (entries, none)
  load_lines entries [] false = (entries, some scan_failed)
  load_lines entries (l ∷ ls) fits = elim (parse l) [
    | err e ↦ (entries, some e)
    | ok entry ↦ load_lines (entries ++ entry ∷ []) ls fits
  ]

-- `UserFile.Load` and `GroupFile.Load`.
unfoldable pub load_users : List UserEntry → Bytes → List UserEntry × Option Error
load_users entries r = let (ls, fits) = scan max_token r in load_lines parse_user entries ls fits

unfoldable pub load_groups : List GroupEntry → Bytes → List GroupEntry × Option Error
load_groups entries r = let (ls, fits) = scan max_token r in load_lines parse_group entries ls fits

-- `UserFile.Write` and `GroupFile.Write`, to a writer that takes all bytes.
unfoldable pub write_users : List UserEntry → Bytes
write_users [] = []
write_users (u ∷ us) = write_user u ++ write_users us

unfoldable pub write_groups : List GroupEntry → Bytes
write_groups [] = []
write_groups (g ∷ gs) = write_group g ++ write_groups gs

-- `ReadUserFile` and `ReadGroupFile`: `open` gives the contents of the file, if it can be opened.
unfoldable pub read_user_file : (Bytes → Option Bytes) → Bytes → List UserEntry × Option Error
read_user_file open_file path = elim (open_file path) [
  | none ↦ ([], some open_failed)
  | some r ↦ load_users [] r
]

unfoldable pub read_group_file : (Bytes → Option Bytes) → Bytes → List GroupEntry × Option Error
read_group_file open_file path = elim (open_file path) [
  | none ↦ ([], some open_failed)
  | some r ↦ load_groups [] r
]
