-- ===== src/Database/Tests.antt =====
-- Runs of the code of the database on small texts.
use mathlib.Core.Bool.{◌&&◌, not}
use go_apk.Base.{ℕ, Bool, true, List, [], ◌∷◌, ◌≡◌, refl, arith, ◌==◌, ltb, all_of, All, length}
use go_apk.Base.Bytes.{Bytes, codes, str_eq, str_eq_iff, Lacks, split, join, has_prefix}
use go_apk.Base.Base64.{encode_base64, sextet_char}
use go_apk.Base.Decimal.{pos, format, format_int, parse_int, numeral, parse_uint}
use go_apk.Base.Scanner.{newline, max_token, drop_cr, raw_lines, tokens, scan, unlines, IsLine}
use go_apk.Database.{
  Package, no_package, no_colon, panicked, ok, err, set_field, package_to_installed,
}
use go_apk.Database.Index.{index_loop, parse_package_index}
use go_apk.Database.Installed.{parse_installed}
use go_apk.Database.Fields.{IsPrintable}
use go_apk.Database.Laws.{database_lines, all_read, parse_installed-package_to_installed}

-- What the runs compute with.
program : Unit {0}
unfolding scan tokens raw_lines drop_cr split join has_prefix set_field parse_package_index
    index_loop parse_uint parse_int numeral
program = tt

no_colon_tests :
    (parse_package_index (codes "P:a\nVersion\n") ≡ err (no_colon 2))
    × (parse_package_index (codes "P:a\nV\n") ≡ err panicked)
unfolding program
no_colon_tests = (refl, refl)

index_tests :
    parse_package_index (codes "P:a\nV:1\nD:b c\nS:12\n\nP:d\n\n")
    ≡ ok (
        record no_package {
          name = codes "a";
          version = codes "1";
          dependencies = codes "b" ∷ codes "c" ∷ [];
          size = 12;
        }
        ∷ record no_package { name = codes "d" }
        ∷ [])
unfolding program
index_tests = refl

Lacks-of : (b : ℕ) (s : Bytes) → all_of (λ c. not (c == b)) s ≡ true → Lacks b s
Lacks-of b [] h = tt
Lacks-of b (c ∷ s) h = (ground arith, Lacks-of b s (ground arith))

abbrev pub is_line : Bytes → Bool
is_line l = all_of (λ c. not (c == newline)) l && str_eq (drop_cr l) l && ltb (length l) max_token

IsLine-of_is_line : (l : Bytes) → is_line l ≡ true → IsLine max_token l
IsLine-of_is_line l h = record {
  one = Lacks-of newline l (ground arith);
  kept = (str_eq_iff (drop_cr l) l).0 (ground arith);
  fits = ground arith;
}

pub IsLine-All : (ls : List Bytes) → all_of is_line ls ≡ true → All (IsLine max_token) ls
IsLine-All [] h = tt
IsLine-All (l ∷ ls) h = (IsLine-of_is_line l (ground arith), IsLine-All ls (ground arith))

abbrev pub busybox : Package
busybox = record no_package {
  name = codes "busybox";
  version = codes "1.36";
  dependencies = codes "libc" ∷ codes "so:libm" ∷ [];
  checksum = 1 ∷ 200 ∷ [];
  build_time = pos 1700000000;
  size = 9;
}

pub busybox-IsPrintable : IsPrintable busybox
busybox-IsPrintable = record {
  named = λ e. absurd (cc e);
  plain_dependencies = (Lacks-of 32 (codes "libc") refl, (Lacks-of 32 (codes "so:libm") refl, tt));
  plain_provides = tt;
  plain_replaces = tt;
  seconds = 1700000000;
  built = refl;
  seconds_fit = omega arith;
  size_fits = omega arith;
  installed_size_fits = omega arith;
  priority_fits = omega arith;
  checksum_bytes = (omega arith, (omega arith, tt));
}

parse_installed-package_to_installed_example :
    parse_installed (unlines (database_lines (busybox ∷ []))) ≡ ok (all_read (busybox ∷ []))
parse_installed-package_to_installed_example =
    parse_installed-package_to_installed (busybox ∷ []) (busybox-IsPrintable, tt)
      (IsLine-All (database_lines (busybox ∷ [])) (
        unfold database_lines package_to_installed drop_cr str_eq format format_int encode_base64
          sextet_char join in
        refl))
