-- ===== src/Database/Fields.antt =====
-- pkg/apk/package.go and pkg/apk/installed.go: the fields of one package, printed and read.
use Prim.Native.Nat.{suc, ◌≤◌}
use go_apk.Base.{ℕ, List, [], ◌∷◌, ◌++◌, none, ◌≡◌, ◌≢◌, refl, arith, All, if◌then◌else◌, is_nil}
use go_apk.Base.Bytes.{Bytes, has_prefix, split, join, Lacks, split-join}
use go_apk.Base.Decimal.{pos, format, format_int, max_u64, max_i64, atoi-format, parse_uint-format}
use go_apk.Base.Base64.{IsByte, encode_base64, decode_base64-encode_base64}
use go_apk.Database.{Package, no_package, ok, space, set_field, show_strings, field}
use go_apk.Database.Installed.{InstalledPackage, Progress, nothing, installed_field, installed_loop}

-- A list that `strings.Join` and `strings.Split` give back; an empty one comes back as one name
-- that is empty.
abbrev pub reread : List Bytes → List Bytes
reread [] = [] ∷ []
reread (x ∷ xs) = x ∷ xs

pub split-join-reread :
    (l : List Bytes) → All (Lacks space) l → split (join l space) space ≡ reread l
split-join-reread [] _ = unfold split join in refl
split-join-reread (x ∷ xs) h = split-join (x ∷ xs) space (λ e. absurd (cc e)) h

-- What is printed fits the types of the fields, and no name in a list has a space.
pub record IsPrintable (p : Package) : Type 0 where
  pub named : p.name ≢ []
  pub plain_dependencies : All (Lacks space) p.dependencies
  pub plain_provides : All (Lacks space) p.provides
  pub plain_replaces : All (Lacks space) p.replaces
  pub seconds : ℕ
  pub built : p.build_time ≡ pos seconds
  pub seconds_fit : seconds ≤ max_i64
  pub size_fits : p.size ≤ max_u64
  pub installed_size_fits : p.installed_size ≤ max_u64
  pub priority_fits : p.provider_priority ≤ max_u64
  pub checksum_bytes : All IsByte p.checksum

-- What is read back: no dependencies and no provided names come back as one empty name, and the
-- brackets that are printed around the names of InstallIf become part of these.
abbrev pub as_read : Package → Package
as_read p = record p {
  dependencies = reread p.dependencies;
  provides = reread p.provides;
  install_if = split (show_strings p.install_if) space;
  build_date = p.build_time;
  data_hash = [];
}

abbrev pub with_pkg : Package → Progress
with_pkg p = record { current = record { pkg = p; files = [] }; last_dir = none; last_file = none }

-- The state after the lines of the first ten fields.
abbrev pub read_texts : Package → Package
read_texts p = record no_package {
  name = p.name;
  version = p.version;
  arch = p.arch;
  license = p.license;
  description = p.description;
  origin = p.origin;
  maintainer = p.maintainer;
  url = p.url;
  dependencies = split (join p.dependencies space) space;
  provides = split (join p.provides space) space;
}

abbrev pub read_replaces : Package → Package
read_replaces p = record (read_texts p) { replaces = p.replaces }

abbrev pub read_numbers : Package → Package
read_numbers p = record (read_replaces p) {
  repo_commit = p.repo_commit;
  install_if = split (show_strings p.install_if) space;
  build_time = p.build_time;
  build_date = p.build_time;
  size = p.size;
  installed_size = p.installed_size;
  provider_priority = p.provider_priority;
}

-- One line sets one field.
module _ (ls : List Bytes) (nr : ℕ) (q r : Package) (ps : List InstalledPackage) where
  loop_step :
      (token : ℕ) (val : Bytes)
      → installed_field nr token val (with_pkg q) ≡ ok (with_pkg r)
      → installed_loop (field token val ∷ ls) nr (with_pkg q) ps
        ≡ installed_loop ls (suc nr) (with_pkg r) ps
  unfolding installed_loop
  loop_step token val h = ground arith

unfoldable pub number_lines : Package → List Bytes
number_lines p =
    field b'c' p.repo_commit
    ∷ field b'i' (show_strings p.install_if)
    ∷ field b't' (format_int p.build_time)
    ∷ field b'S' (format p.size)
    ∷ field b'I' (format p.installed_size)
    ∷ field b'k' (format p.provider_priority)
    ∷ []

unfoldable pub text_lines : Package → List Bytes
text_lines p =
    field b'P' p.name
    ∷ field b'V' p.version
    ∷ field b'A' p.arch
    ∷ field b'L' p.license
    ∷ field b'T' p.description
    ∷ field b'o' p.origin
    ∷ field b'm' p.maintainer
    ∷ field b'U' p.url
    ∷ field b'D' (join p.dependencies space)
    ∷ field b'p' (join p.provides space)
    ∷ []

abbrev pub replaces_lines : List Bytes → List Bytes
replaces_lines l = if is_nil l then [] else field b'r' (join l space) ∷ []

abbrev pub checksum_lines : Bytes → List Bytes
checksum_lines s = if is_nil s then [] else field b'C' (b'Q' ∷ b'1' ∷ encode_base64 s) ∷ []

module _ (p : Package) (h : IsPrintable p) where
  pub read_numbers_lem :
      (ls : List Bytes) (nr : ℕ) (ps : List InstalledPackage)
      → (m : ℕ) × (installed_loop (number_lines p ++ ls) nr (with_pkg (read_replaces p)) ps
          ≡ installed_loop ls m (with_pkg (read_numbers p)) ps)
  unfolding installed_loop installed_field set_field format_int number_lines
  read_numbers_lem ls nr ps = (
    suc (suc (suc (suc (suc (suc nr))))),
    ground (
      arith,
      h.built,
      atoi-format h.seconds h.seconds_fit,
      parse_uint-format p.size h.size_fits,
      parse_uint-format p.installed_size h.installed_size_fits,
      parse_uint-format p.provider_priority h.priority_fits,
    ),
  )

  pub read_texts_lem :
      (ls : List Bytes) (nr : ℕ) (ps : List InstalledPackage)
      → (m : ℕ) × (installed_loop (text_lines p ++ ls) nr nothing ps
          ≡ installed_loop ls m (with_pkg (read_texts p)) ps)
  unfolding installed_loop installed_field set_field text_lines
  read_texts_lem ls nr ps = (suc (suc (suc (suc (suc (suc (suc (suc (suc (suc nr))))))))), refl)

  pub read_replaces_lem :
      (ls : List Bytes) (nr : ℕ) (ps : List InstalledPackage)
      → (m : ℕ) × (installed_loop (replaces_lines p.replaces ++ ls) nr (with_pkg (read_texts p)) ps
          ≡ installed_loop ls m (with_pkg (read_replaces p)) ps)
  read_replaces_lem ls nr ps = go p.replaces h.plain_replaces refl
    where
      go :
          (l : List Bytes)
          → All (Lacks space) l
          → p.replaces ≡ l
          → (m : ℕ) × (installed_loop (replaces_lines l ++ ls) nr (with_pkg (read_texts p)) ps
              ≡ installed_loop ls m (with_pkg (read_replaces p)) ps)
      go [] k e = (nr, rw e refl)
      go (x ∷ xs) k e = (
        suc nr,
        loop_step ls nr (read_texts p) (read_replaces p) ps b'r' (join (x ∷ xs) space) (
            unfold installed_field in
            (let g : split (join (x ∷ xs) space) space ≡ x ∷ xs =
                split-join (x ∷ xs) space (λ f. absurd (cc f)) k in
              rw (g, e) refl)),
      )

  pub read_checksum_lem :
      (ls : List Bytes) (nr : ℕ) (ps : List InstalledPackage)
      → (m : ℕ) × (installed_loop
            (checksum_lines p.checksum ++ ls)
            nr
            (with_pkg (read_numbers p))
            ps
          ≡ installed_loop ls m (with_pkg (record (read_numbers p) { checksum = p.checksum })) ps)
  read_checksum_lem ls nr ps = go p.checksum h.checksum_bytes refl
    where
      go :
          (l : Bytes)
          → All IsByte l
          → p.checksum ≡ l
          → (m : ℕ) × (installed_loop (checksum_lines l ++ ls) nr (with_pkg (read_numbers p)) ps
              ≡ installed_loop ls m (with_pkg (record (read_numbers p) { checksum = l })) ps)
      go [] k e = (nr, refl)
      go (x ∷ xs) k e = (
        suc nr,
        loop_step ls nr (read_numbers p) (record (read_numbers p) { checksum = x ∷ xs }) ps b'C'
            (b'Q' ∷ b'1' ∷ encode_base64 (x ∷ xs))
            (unfold installed_field set_field has_prefix in
              rw (decode_base64-encode_base64 (x ∷ xs) k) refl),
      )
