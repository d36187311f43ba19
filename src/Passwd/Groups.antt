-- ===== src/Passwd/Groups.antt =====
-- pkg/passwd/group.go: a group file that is written is read back.
use Prim.Native.Nat.{◌<◌}
use mathlib.Core.List.{append_assoc, cons-ne-nil, map}
use go_apk.Base.{List, [], ◌∷◌, ◌++◌, none, ◌≡◌, ◌≢◌, refl, arith, All, All-imp, All-append}
use go_apk.Base.Bytes.{Bytes, split, join, split-join, Lacks, Stops}
use go_apk.Base.Decimal.{format, atoi-format, format-Lacks}
use go_apk.Base.Scanner.{
  max_token, scan-unlines, unlines, IsLine, is_space, trim_space, trim_right, trim_left_same,
  trim_right-append,
}
use go_apk.Passwd.{
  ok, GroupEntry, u32_mod, group_of_parts, parse_group, group_line, write_group, load_groups,
  write_groups,
}
use go_apk.Passwd.Users.{IsField, to_u32_pos, Stops-colon, load_lines-All}

-- A member's name has no colon and no comma.
abbrev pub IsMember : Bytes → Type 0
IsMember m = IsField m × Lacks b',' m

-- The number fits 32 bits, no text has a colon, and the line neither begins nor ends in a space.
pub record IsGroup (g : GroupEntry) : Type 0 where
  pub group_name : IsField g.group_name
  pub password : IsField g.password
  pub members : All IsMember g.members
  pub gid : g.gid < u32_mod
  pub start : Stops is_space g.group_name
  pub finish : trim_right (join g.members b',') ≡ join g.members b','

join-IsField : (ms : List Bytes) → All IsMember ms → IsField (join ms b',')
unfolding join
join-IsField [] _ = tt
join-IsField (m ∷ []) ((h, _), _) = h
join-IsField (m ∷ n ∷ ms) ((h, _), hs) =
    All-append _ m (b',' ∷ join (n ∷ ms) b',') h (omega arith, join-IsField (n ∷ ms) hs)

trim_right_colon : (s t : Bytes) → trim_right (s ++ b':' ∷ t) ≡ s ++ b':' ∷ trim_right t
trim_right_colon s t = trim_right-append s b':' t refl

module _ (g : GroupEntry) (h : IsGroup g) where
  trim_group_line : trim_space (group_line g) ≡ group_line g
  unfolding group_line join trim_space
  trim_group_line =
      rw (trim_left_same (group_line g) (Stops-colon g.group_name _ h.start))
        (simp trim_right_colon (rw h.finish))

  split-group_line :
      split (group_line g) b':'
      ≡ g.group_name ∷ g.password ∷ format g.gid ∷ join g.members b',' ∷ []
  unfolding group_line
  split-group_line = split-join _ b':' (cons-ne-nil _ _) (
    h.group_name,
    (h.password, (format-Lacks b':' g.gid refl, (join-IsField g.members h.members, tt))),
  )

  -- The members are what the last field splits into.
  parse_group_line :
      parse_group (group_line g) ≡ ok (record g { members = split (join g.members b',') b',' })
  unfolding parse_group group_of_parts
  parse_group_line =
      rw
        (trim_group_line, split-group_line, atoi-format g.gid (omega arith), to_u32_pos g.gid h.gid)

  -- A line that was written for a group with members is parsed as that group.
  pub parse_group-group_line : g.members ≢ [] → parse_group (group_line g) ≡ ok g
  parse_group-group_line some_member = rw (
    parse_group_line,
    split-join g.members b',' some_member (All-imp g.members (λ m (_, c). c) h.members),
  )

  -- A line that was written for a group without members is parsed as a group with one member, of
  -- the empty name.
  pub parse_group-no_members :
      g.members ≡ [] → parse_group (group_line g) ≡ ok (record g { members = [] ∷ [] })
  parse_group-no_members e = rw parse_group_line (rw e (unfold split join in refl))

write_groups-unlines : (gs : List GroupEntry) → write_groups gs ≡ unlines (map group_line gs)
unfolding write_groups write_group unlines
write_groups-unlines [] = refl
write_groups-unlines (g ∷ gs) = rw (write_groups-unlines gs, append_assoc)

-- A group with members that can be written and read back.
abbrev pub IsWritable : GroupEntry → Type 0
IsWritable g = IsGroup g × (g.members ≢ []) × IsLine max_token (group_line g)

All-lines : (gs : List GroupEntry) → All IsWritable gs → All (IsLine max_token) (map group_line gs)
All-lines [] _ = tt
All-lines (g ∷ gs) ((_, _, h), hs) = (h, All-lines gs hs)

-- Loading what was written for a list of groups gives those groups, in order, and no error, if each
-- has a member, its number fits 32 bits, no text has a colon and no member a comma, and each line is
-- one that the scanner returns as it stands and that neither begins nor ends in a space.
pub load_groups-write_groups :
    (gs : List GroupEntry) → All IsWritable gs → load_groups [] (write_groups gs) ≡ (gs, none)
unfolding load_groups
load_groups-write_groups gs h =
    rw (write_groups-unlines gs, scan-unlines max_token (map group_line gs) (All-lines gs h))
      (load_lines-All parse_group group_line [] gs
        (All-imp gs (λ g (i, m, _). parse_group-group_line g i m) h))
