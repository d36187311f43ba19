-- ===== src/Passwd/Users.antt =====
-- pkg/passwd/passwd.go: a user file that is written is read back.
use Prim.Native.Nat.{◌<◌}
use mathlib.Core.List.{append_assoc, append-nil, cons-ne-nil, map}
use go_apk.Base.{ℕ, true, List, [], ◌∷◌, ◌++◌, none, ◌≡◌, refl, ◌∙◌, arith, All, All-imp}
use go_apk.Base.Bytes.{Bytes, split, join, split-join, Lacks, Stops}
use go_apk.Base.Decimal.{pos, format, atoi-format, format-Lacks}
use go_apk.Base.Scanner.{
  max_token, scan-unlines, unlines, IsLine, is_space, trim_space, trim_right, trim_left_same,
  trim_right-append,
}
use go_apk.Passwd.{
  Result, ok, UserEntry, u32_mod, to_u32, user_of_parts, parse_user, user_line, write_user,
  load_lines, load_users, write_users,
}

pub to_u32_pos : (n : ℕ) → n < u32_mod → to_u32 (pos n) ≡ n
unfolding to_u32
to_u32_pos n h = omega arith

-- A text that may stand between two colons.
abbrev pub IsField : Bytes → Type 0
IsField = Lacks b':'

-- The numbers fit 32 bits, no field has a colon, and the line neither begins nor ends in a space.
pub record IsUser (u : UserEntry) : Type 0 where
  pub user_name : IsField u.user_name
  pub password : IsField u.password
  pub info : IsField u.info
  pub home_dir : IsField u.home_dir
  pub shell : IsField u.shell
  pub uid : u.uid < u32_mod
  pub gid : u.gid < u32_mod
  pub start : Stops is_space u.user_name
  pub finish : trim_right u.shell ≡ u.shell

trim_right_colon : (s t : Bytes) → trim_right (s ++ b':' ∷ t) ≡ s ++ b':' ∷ trim_right t
trim_right_colon s t = trim_right-append s b':' t refl

pub Stops-colon : (s t : Bytes) → Stops is_space s → Stops is_space (s ++ b':' ∷ t)
Stops-colon [] t _ = refl
Stops-colon (c ∷ s) t h = h

module _ (u : UserEntry) (h : IsUser u) where
  trim_user_line : trim_space (user_line u) ≡ user_line u
  unfolding user_line join trim_space
  trim_user_line =
      rw (trim_left_same (user_line u) (Stops-colon u.user_name _ h.start))
        (simp (trim_right_colon, h.finish))

  split-user_line :
      split (user_line u) b':'
      ≡ u.user_name ∷ u.password ∷ format u.uid ∷ format u.gid ∷ u.info ∷ u.home_dir ∷ u.shell ∷ []
  unfolding user_line
  split-user_line = split-join _ b':' (cons-ne-nil _ _) (
    h.user_name,
    (
      h.password,
      (
        format-Lacks b':' u.uid refl,
        (format-Lacks b':' u.gid refl, (h.info, (h.home_dir, (h.shell, tt)))),
      ),
    ),
  )

  -- A line that was written for a user is parsed as that user.
  pub parse_user-user_line : parse_user (user_line u) ≡ ok u
  unfolding parse_user user_of_parts
  parse_user-user_line = rw (
    trim_user_line,
    split-user_line,
    atoi-format u.uid (omega arith),
    atoi-format u.gid (omega arith),
    to_u32_pos u.uid h.uid,
    to_u32_pos u.gid h.gid,
  )

-- The loop of `Load` over lines that are all parsed.
pub load_lines-All :
    {E : Type 0} (parse : Bytes → Result E) (line : E → Bytes) (entries es : List E)
    → All (λ e. parse (line e) ≡ ok e) es
    → load_lines parse entries (map line es) true ≡ (entries ++ es, none)
unfolding load_lines
load_lines-All parse line entries [] _ = rw append-nil
load_lines-All parse line entries (e ∷ es) (h, hs) =
    rw (h, load_lines) (load_lines-All parse line (entries ++ e ∷ []) es hs ∙ rw append_assoc)

write_users-unlines : (us : List UserEntry) → write_users us ≡ unlines (map user_line us)
unfolding write_users write_user unlines
write_users-unlines [] = refl
write_users-unlines (u ∷ us) = rw (write_users-unlines us, append_assoc)

-- A user that can be written and read back: its line fits the scanner and holds no newline.
abbrev pub IsWritable : UserEntry → Type 0
IsWritable u = IsUser u × IsLine max_token (user_line u)

All-lines : (us : List UserEntry) → All IsWritable us → All (IsLine max_token) (map user_line us)
All-lines [] _ = tt
All-lines (u ∷ us) ((_, h), hs) = (h, All-lines us hs)

-- Loading what was written for a list of users gives those users, in order, and no error, if the
-- numbers fit 32 bits, no field has a colon, and each line is one that the scanner returns as it
-- stands and that neither begins nor ends in a space.
pub load_users-write_users :
    (us : List UserEntry) → All IsWritable us → load_users [] (write_users us) ≡ (us, none)
unfolding load_users
load_users-write_users us h =
    rw (write_users-unlines us, scan-unlines max_token (map user_line us) (All-lines us h))
      (load_lines-All parse_user user_line [] us
        (All-imp us (λ u (g, _). parse_user-user_line u g) h))
