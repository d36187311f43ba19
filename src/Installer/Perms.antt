-- ===== src/Installer/Perms.antt =====
-- pkg/apk/installed.go: owners, permissions and checksums, printed and read.
use Prim.Native.Nat.{◌≤◌, ◌<◌}
use go_apk.Base.{
  ℕ, true, false, List, [], ◌∷◌, ◌++◌, Option, none, some, ◌≡◌, ◌⊎◌, ◌∙◌, refl, inl, inr, arith,
  Bool-cases, Option-cases, if◌then◌else◌, is_nil,
}
use go_apk.Base.Bytes.{Bytes, codes, has_prefix, split, split_part, split_last, Lacks}
use go_apk.Base.Decimal.{
  pos, max_i64, format, format_int, parse_int, numeral, value, atoi-format, format-Lacks,
}
use go_apk.Base.Base64.{encode_base64}
use go_apk.Base.Maps.{lookup}
use go_apk.Base.Paths.{base}
use go_apk.Database.{field}
use go_apk.Database.Installed.{
  InstalledPackage, Progress, sanitize_archive_path, parse_installed_perms, new_header, set_perms,
  add_file, installed_field, installed_loop,
}
use go_apk.Database.Installed
use go_apk.Install.{Header, checksum_key}
use go_apk.Install.Files.{decode_hex}
use go_apk.Installer.Sorting.{is_dir}
use go_apk.Installer.Records.{trim_slash, format_octal, perm_of, checksum_line}

-- The owner and the group are numbers that fit `int`.
pub record IsOwned (h : Header) : Type 0 where
  pub user : ℕ
  pub user_is : h.uid ≡ pos user
  pub user_fits : user ≤ max_i64
  pub group : ℕ
  pub group_is : h.gid ≡ pos group
  pub group_fits : group ≤ max_i64

parse_octal : (n : ℕ) → n < 512 → parse_int 8 (format_octal n) ≡ some (pos n)
unfolding parse_int format_octal numeral value
parse_octal n h = ground arith

format_octal-Lacks : (n : ℕ) → n < 512 → Lacks b':' (format_octal n)
unfolding format_octal
format_octal-Lacks n h = (omega arith, (omega arith, (omega arith, (omega arith, tt))))

parse_perms :
    (u g n : ℕ)
    → u ≤ max_i64
    → g ≤ max_i64
    → n < 512
    → parse_installed_perms (format u ++ b':' ∷ (format g ++ b':' ∷ format_octal n))
      ≡ some (pos u, pos g, pos n)
unfolding parse_installed_perms
parse_perms u g n hu hg hn =
    let e : split (format u ++ b':' ∷ (format g ++ b':' ∷ format_octal n)) b':'
        ≡ format u ∷ format g ∷ format_octal n ∷ [] =
      split_part (format u) (format g ++ b':' ∷ format_octal n) b':' (format-Lacks b':' u refl)
      ∙ rw
          (
            split_part (format g) (format_octal n) b':' (format-Lacks b':' g refl),
            split_last (format_octal n) b':' (format_octal-Lacks n hn),
          )
          refl in
    rw (e, parse_installed_perms) (rw (atoi-format u hu, atoi-format g hg, parse_octal n hn) refl)

abbrev pub perm_text : Header → Bytes
perm_text h = format_int h.uid ++ b':' ∷ (format_int h.gid ++ b':' ∷ format_octal (perm_of h))

pub parse_perm_text :
    (h : Header) (o : IsOwned h)
    → parse_installed_perms (perm_text h) ≡ some (pos o.user, pos o.group, pos (perm_of h))
unfolding format_int
parse_perm_text h o =
    rw (o.user_is, o.group_is)
      (parse_perms o.user o.group (perm_of h) o.user_fits o.group_fits (omega arith))

-- What a file is read as behind a directory: only its path, and whether it is a directory.
abbrev pub full_path : Option Bytes → Bytes → Bytes
full_path none name = name
full_path (some dir) name = sanitize_archive_path dir name

abbrev pub read_files : Option Bytes → List Header → List Installed.Header
read_files dir [] = []
read_files dir (h ∷ hs) =
    if is_dir h
    then new_header (trim_slash h.name) 493 true ∷ read_files (some (trim_slash h.name)) hs
    else new_header (full_path dir (base h.name)) 420 false ∷ read_files dir hs

pub checksum_line_cases :
    (h : Header) (sum : List Bytes)
    → checksum_line h ≡ some sum
    → (sum ≡ []) ⊎ ((v : Bytes) × (sum ≡ field b'Z' v ∷ []))
unfolding checksum_line
checksum_line_cases h sum e = elim (Option-cases (lookup checksum_key h.pax_records)) [
  | inl f ↦ inl (ground arith)
  | inr (c, f) ↦ elim (Bool-cases (is_nil c)) [
    | inl g ↦ inl (ground arith)
    | inr g ↦ elim (Bool-cases (has_prefix c (codes "Q1"))) [
      | inl k ↦ inr (c, ground arith)
      | inr k ↦ elim (Option-cases (decode_hex c)) [
        | inl x ↦ absurd (ground arith)
        | inr (y, x) ↦ inr (b'Q' ∷ b'1' ∷ encode_base64 y, ground arith)
      ]
    ]
  ]
]
