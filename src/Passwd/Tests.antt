-- ===== src/Passwd/Tests.antt =====
-- Runs of the passwd code on concrete files, and the theorems at concrete entries.
use go_apk.Base.{[], ◌∷◌, ◌++◌, none, some, ◌≡◌, refl, arith}
use mathlib.Core.List.{cons-ne-nil}
use go_apk.Base.Bytes.{codes, split, join}
use go_apk.Base.Decimal.{parse_int, numeral, format}
use go_apk.Base.Scanner.{scan, tokens, raw_lines, drop_cr, trim_space, trim_right, newline}
use go_apk.Passwd.{
  UserEntry, GroupEntry, ok, malformed, to_u32, user_of_parts, parse_user, user_line,
  group_of_parts, parse_group, group_line, load_lines, load_users, write_users, load_groups,
  write_groups, write_user, write_group,
}
use go_apk.Passwd.Users
use go_apk.Passwd.Groups

program : Unit {0}
unfolding split join parse_int numeral format scan tokens raw_lines drop_cr trim_space trim_right
    to_u32 user_of_parts parse_user user_line group_of_parts parse_group group_line load_lines
    load_users write_users load_groups write_groups write_user write_group
program = tt

abbrev root : UserEntry
root = record {
  user_name = codes "root";
  password = codes "x";
  uid = 0;
  gid = 0;
  info = codes "root";
  home_dir = codes "/root";
  shell = codes "/bin/ash";
}

abbrev wheel : GroupEntry
wheel = record {
  group_name = codes "wheel";
  password = codes "x";
  gid = 10;
  members = codes "root" ∷ codes "ada" ∷ [];
}

root_line : user_line root ≡ codes "root:x:0:0:root:/root:/bin/ash"
unfolding program
root_line = refl

negative_uid :
    parse_user (codes "n:x:-1:5::/:/bin/sh")
    ≡ ok (record {
      user_name = codes "n";
      password = codes "x";
      uid = 4294967295;
      gid = 5;
      info = [];
      home_dir = codes "/";
      shell = codes "/bin/sh";
    })
unfolding program
negative_uid = refl

short_line : load_users [] (codes "root:x" ++ newline ∷ []) ≡ ([], some malformed)
unfolding program
short_line = refl

root-IsWritable : Users.IsWritable root
unfolding program
root-IsWritable = (
  record {
    user_name = omega arith;
    password = omega arith;
    info = omega arith;
    home_dir = omega arith;
    shell = omega arith;
    uid = omega arith;
    gid = omega arith;
    start = refl;
    finish = refl;
  },
  record { one = omega arith; kept = refl; fits = omega arith },
)

wheel-IsWritable : Groups.IsWritable wheel
unfolding program
wheel-IsWritable = (
  record {
    group_name = omega arith;
    password = omega arith;
    members = omega arith;
    gid = omega arith;
    start = refl;
    finish = refl;
  },
  cons-ne-nil _ _,
  record { one = omega arith; kept = refl; fits = omega arith },
)

load_users-write_users_example : load_users [] (write_users (root ∷ [])) ≡ (root ∷ [], none)
load_users-write_users_example = Users.load_users-write_users (root ∷ []) (root-IsWritable, tt)

load_groups-write_groups_example : load_groups [] (write_groups (wheel ∷ [])) ≡ (wheel ∷ [], none)
load_groups-write_groups_example =
    Groups.load_groups-write_groups (wheel ∷ []) (wheel-IsWritable, tt)

abbrev nobody : GroupEntry
nobody = record wheel { members = [] }

nobody-IsGroup : Groups.IsGroup nobody
unfolding program
nobody-IsGroup = record {
  group_name = omega arith;
  password = omega arith;
  members = tt;
  gid = omega arith;
  start = refl;
  finish = refl;
}

parse_group-no_members_example :
    parse_group (group_line nobody) ≡ ok (record nobody { members = [] ∷ [] })
parse_group-no_members_example = Groups.parse_group-no_members nobody nobody-IsGroup refl
