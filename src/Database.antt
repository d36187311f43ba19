-- ===== src/Database.antt =====
-- The packages of an index and of the database of installed packages: pkg/apk/package.go and the
-- fields that pkg/apk/apkindex.go and pkg/apk/installed.go read alike.
pub mod Index
pub mod Installed
pub mod Fields
pub mod Laws
pub mod Tests
use Prim.Native.Nat.{◌-◌}
use go_apk.Base.{
  ℕ, Bool, true, false, List, [], ◌∷◌, ◌++◌, Option, none, some, ◌==◌, if◌then◌else◌, is_nil,
}
use go_apk.Base.Bytes.{Bytes, codes, has_prefix, join}
use go_apk.Base.Decimal.{ℤ, pos, negsuc, parse_uint, parse_int, format, format_int}
use go_apk.Base.Base64.{encode_base64, decode_base64}

-- `Package`: `build_time` is in seconds since 1970.
pub record Package : Type 0 where
  pub name : Bytes
  pub version : Bytes
  pub arch : Bytes
  pub description : Bytes
  pub license : Bytes
  pub origin : Bytes
  pub maintainer : Bytes
  pub url : Bytes
  pub checksum : Bytes
  pub dependencies : List Bytes
  pub provides : List Bytes
  pub install_if : List Bytes
  pub size : ℕ
  pub installed_size : ℕ
  pub provider_priority : ℕ
  pub build_time : ℤ
  pub build_date : ℤ
  pub repo_commit : Bytes
  pub replaces : List Bytes
  pub data_hash : Bytes

-- `&Package{}`: the zero `time.Time` is the beginning of the year 1.
abbrev pub no_package : Package
no_package = record {
  name = [];
  version = [];
  arch = [];
  description = [];
  license = [];
  origin = [];
  maintainer = [];
  url = [];
  checksum = [];
  dependencies = [];
  provides = [];
  install_if = [];
  size = 0;
  installed_size = 0;
  provider_priority = 0;
  build_time = negsuc 62135596799;
  build_date = pos 0;
  repo_commit = [];
  replaces = [];
  data_hash = [];
}

-- `panicked` is a slice out of range.
pub data Error : Type 0 where
  no_colon : ℕ → Error
  bad_number : Bytes → Error
  bad_checksum : Error
  no_directory no_file : ℕ → Error
  bad_permissions : ℕ → Error
  too_long : List Package → Error
  panicked : Error

pub data Result {ℓ} (A : Type ℓ) : Type ℓ where
  ok : A → Result A
  err : Error → Result A

abbrev pub space : ℕ
space = 32

-- `ChecksumString`.
unfoldable pub checksum_string : Package → Bytes
checksum_string p = b'Q' ∷ b'1' ∷ encode_base64 p.checksum

abbrev pub sized : Bytes → (ℕ → Package) → Result Package
sized val set = elim (parse_uint val) [ none ↦ err (bad_number val) | some n ↦ ok (set n) ]

abbrev pub with_checksum : Package → Bytes → Result Package
with_checksum p (q ∷ one ∷ s) =
    if has_prefix (q ∷ one ∷ s) (codes "Q1")
    then elim (decode_base64 s) [
      | none ↦ err bad_checksum
      | some sum ↦ ok (record p { checksum = sum })
    ]
    else ok p
with_checksum p s = ok p

-- The cases that the switches of both parsers have, which split lists by their own function.
unfoldable pub set_field : (Bytes → List Bytes) → ℕ → Bytes → Package → Result Package
unfolding has_prefix
set_field split_list token val p =
    if token == b'P'
    then ok (record p { name = val })
    else if token == b'V'
    then ok (record p { version = val })
    else if token == b'A'
    then ok (record p { arch = val })
    else if token == b'L'
    then ok (record p { license = val })
    else if token == b'T'
    then ok (record p { description = val })
    else if token == b'o'
    then ok (record p { origin = val })
    else if token == b'm'
    then ok (record p { maintainer = val })
    else if token == b'U'
    then ok (record p { url = val })
    else if token == b'D'
    then ok (record p { dependencies = split_list val })
    else if token == b'p'
    then ok (record p { provides = split_list val })
    else if token == b'c'
    then ok (record p { repo_commit = val })
    else if token == b't'
    then elim (parse_int 10 val) [
      | none ↦ err (bad_number val)
      | some i ↦ ok (record p { build_date = i; build_time = i })
    ]
    else if token == b'i'
    then ok (record p { install_if = split_list val })
    else if token == b'S'
    then sized val (λ n. record p { size = n })
    else if token == b'I'
    then sized val (λ n. record p { installed_size = n })
    else if token == b'k'
    then sized val (λ n. record p { provider_priority = n })
    else if token == b'C'
    then with_checksum p val
    else ok p

-- `%s` of a list of strings.
abbrev pub show_strings : List Bytes → Bytes
show_strings l = b'[' ∷ (join l space ++ b']' ∷ [])

-- A line with its token.
abbrev pub field : ℕ → Bytes → Bytes
field token val = token ∷ b':' ∷ val

-- `PackageToInstalled`.
unfoldable pub package_to_installed : Package → List Bytes
unfolding checksum_string
package_to_installed p =
    field b'P' p.name
    ∷ field b'V' p.version
    ∷ field b'A' p.arch
    ∷ field b'L' p.license
    ∷ field b'T' p.description
    ∷ field b'o' p.origin
    ∷ field b'm' p.maintainer
    ∷ field b'U' p.url
    ∷ field b'D' (join p.dependencies space)
    ∷ field b'p' (join p.provides space)
    ∷ ((if is_nil p.replaces then [] else field b'r' (join p.replaces space) ∷ [])
        ++ field b'c' p.repo_commit
          ∷ field b'i' (show_strings p.install_if)
          ∷ field b't' (format_int p.build_time)
          ∷ field b'S' (format p.size)
          ∷ field b'I' (format p.installed_size)
          ∷ field b'k' (format p.provider_priority)
          ∷ (if is_nil p.checksum then [] else field b'C' (checksum_string p) ∷ []))
