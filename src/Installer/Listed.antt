-- ===== src/Installer/Listed.antt =====
-- pkg/apk/installed.go: `ParseInstalled` reads the lines that `AddInstalledPackage` writes for files.
use Prim.Native.Nat.{suc}
use mathlib.Core.List.{append-nil, append_assoc}
use go_apk.Base.{
  ℕ, true, false, List, [], ◌∷◌, ◌++◌, Option, none, some, ◌≡◌, ◌∙◌, refl, inl, inr, arith,
  Bool-cases, Option-cases, All,
}
use go_apk.Base.Bytes.{Bytes}
use go_apk.Base.Decimal.{pos}
use go_apk.Base.Paths.{base}
use go_apk.Database
use go_apk.Database.{Package, field, set_field}
use go_apk.Database.Installed.{
  InstalledPackage, Progress, sanitize_archive_path, parse_installed_perms, new_header, set_perms,
  add_file, installed_field, installed_loop,
}
use go_apk.Database.Installed
use go_apk.Install.{Header}
use go_apk.Installer.Sorting.{is_dir}
use go_apk.Installer.Records.{
  trim_slash, perm_of, is_usual, perm_lines, checksum_line, file_lines, files_lines,
}
use go_apk.Installer.Perms.{
  IsOwned, perm_text, parse_perm_text, full_path, read_files, checksum_line_cases,
}

-- A line that does what its token says.
step :
    (token : ℕ) (val : Bytes) (ls : List Bytes) (nr : ℕ) (s s' : Progress)
    (ps : List InstalledPackage)
    → installed_field nr token val s ≡ Database.ok s'
    → installed_loop (field token val ∷ ls) nr s ps ≡ installed_loop ls (suc nr) s' ps
unfolding installed_loop
step token val ls nr s s' ps h = ground arith

module _ (q : Package) (ps : List InstalledPackage) where
  abbrev pub at :
      List Installed.Header → Option Installed.Header → Option Installed.Header → Progress
  at fs d f = record { current = record { pkg = q; files = fs }; last_dir = d; last_file = f }

  abbrev pub dir_name : Option Installed.Header → Option Bytes
  dir_name none = none
  dir_name (some d) = some d.name

  -- The lines are read, and leave a state that knows the files and the directory.
  pub record Reads (lines : List Bytes) (s : Progress) (fs : List Installed.Header)
      (dir : Option Bytes) : Type 0 where
    pub last_dir : Option Installed.Header
    pub last_file : Option Installed.Header
    pub knows : dir_name last_dir ≡ dir
    pub runs :
        (ls : List Bytes) (nr : ℕ)
        → (m : ℕ) × (installed_loop (lines ++ ls) nr s ps
            ≡ installed_loop ls m (at fs last_dir last_file) ps)

  -- The line with the permissions is read, if there is one.
  perm_lines_dir :
      (h : Header) (usual : ℕ) (fs : List Installed.Header) (d : Installed.Header)
      (f : Option Installed.Header)
      → IsOwned h
      → Reads (perm_lines b'M' usual h) (at fs (some d) f) fs (some d.name)
  unfolding perm_lines
  perm_lines_dir h usual fs d f o = elim (Bool-cases (is_usual usual h)) [
    | inl e ↦ record {
      last_dir = some d;
      last_file = f;
      knows = refl;
      runs = λ ls nr. (nr, rw e refl);
    }
    | inr e ↦
        let d' = set_perms d (pos o.user, pos o.group, pos (perm_of h)) in
        record {
          last_dir = some d';
          last_file = f;
          knows = refl;
          runs = λ ls nr. (
            suc nr,
            rw e (
                step b'M' (perm_text h) ls nr (at fs (some d) f) (at fs (some d') f) ps
                  (unfold installed_field in rw (parse_perm_text h o) refl)),
          );
        }
  ]

  perm_lines_file :
      (h : Header) (usual : ℕ) (fs : List Installed.Header) (d : Option Installed.Header)
      (f : Installed.Header)
      → IsOwned h
      → Reads (perm_lines b'a' usual h) (at fs d (some f)) fs (dir_name d)
  unfolding perm_lines
  perm_lines_file h usual fs d f o = elim (Bool-cases (is_usual usual h)) [
    | inl e ↦ record {
      last_dir = d;
      last_file = some f;
      knows = refl;
      runs = λ ls nr. (nr, rw e refl);
    }
    | inr e ↦
        let f' = set_perms f (pos o.user, pos o.group, pos (perm_of h)) in
        record {
          last_dir = d;
          last_file = some f';
          knows = refl;
          runs = λ ls nr. (
            suc nr,
            rw e (
                step b'a' (perm_text h) ls nr (at fs d (some f)) (at fs d (some f')) ps
                  (unfold installed_field in rw (parse_perm_text h o) refl)),
          );
        }
  ]

  -- One part after the other.
  Reads-append :
      (l r : List Bytes) (s : Progress) (fs gs : List Installed.Header) (d e : Option Bytes)
      → (a : Reads l s fs d) → Reads r (at fs a.last_dir a.last_file) gs e
      → Reads (l ++ r) s gs e
  Reads-append l r s fs gs d e a b = record {
    last_dir = b.last_dir;
    last_file = b.last_file;
    knows = b.knows;
    runs = λ ls nr.
        let (m, x) = a.runs (r ++ ls) nr in
        let (n, y) = b.runs ls m in (n, rw (append_assoc l r ls) x ∙ y);
  }

  -- The line of the checksum changes nothing.
  checksum_Reads :
      (h : Header) (sum : List Bytes) (fs : List Installed.Header) (d f : Option Installed.Header)
      → checksum_line h ≡ some sum
      → Reads sum (at fs d f) fs (dir_name d)
  checksum_Reads h sum fs d f e = record {
    last_dir = d;
    last_file = f;
    knows = refl;
    runs = λ ls nr. elim (checksum_line_cases h sum e) [
      | inl g ↦ (nr, rw g refl)
      | inr (v, g) ↦ (
        suc nr,
        rw g (
            step b'Z' v ls nr (at fs d f) (at fs d f) ps
              (unfold installed_field set_field in refl)),
      )
    ];
  }

  -- A line, and the lines behind it.
  first :
      (token : ℕ) (val : Bytes) (s : Progress) (rest : List Bytes) (gs : List Installed.Header)
      (d f : Option Installed.Header) (b : Option Bytes)
      → ((nr : ℕ) → installed_field nr token val s ≡ Database.ok (at gs d f))
      → Reads rest (at gs d f) gs b
      → Reads (field token val ∷ rest) s gs b
  first token val s rest gs d f b h r = record {
    last_dir = r.last_dir;
    last_file = r.last_file;
    knows = r.knows;
    runs = λ ls nr.
        let (m, e) = r.runs ls (suc nr) in
        (m, step token val (rest ++ ls) nr s (at gs d f) ps (h nr) ∙ e);
  }

  file_lines_dir :
      (h : Header) (lines : List Bytes) (fs : List Installed.Header) (d f : Option Installed.Header)
      → IsOwned h
      → is_dir h ≡ true
      → file_lines h ≡ some lines
      → Reads lines
          (at fs d f)
          (fs ++ new_header (trim_slash h.name) 493 true ∷ [])
          (some (trim_slash h.name))
  unfolding file_lines
  file_lines_dir h lines fs d f o e g =
      let dir = new_header (trim_slash h.name) 493 true in
      let same : field b'F' (trim_slash h.name) ∷ perm_lines b'M' 493 h ≡ lines = ground arith in
      rw (← same) (
        first b'F' (trim_slash h.name) (at fs d f) (perm_lines b'M' 493 h) (fs ++ dir ∷ [])
          (some dir) none (some (trim_slash h.name)) (λ nr. unfold installed_field in refl)
          (perm_lines_dir h 493 (fs ++ dir ∷ []) dir none o))

  file_field :
      (name : Bytes) (fs : List Installed.Header) (d f : Option Installed.Header) (nr : ℕ)
      → let file = new_header (full_path (dir_name d) name) 420 false in
        installed_field nr b'R' name (at fs d f) ≡ Database.ok (at (fs ++ file ∷ []) d (some file))
  unfolding installed_field
  file_field name fs none f nr = refl
  file_field name fs (some d) f nr = refl

  file_lines_file :
      (h : Header) (lines : List Bytes) (fs : List Installed.Header) (d f : Option Installed.Header)
      → IsOwned h
      → is_dir h ≡ false
      → file_lines h ≡ some lines
      → Reads lines
          (at fs d f)
          (fs ++ new_header (full_path (dir_name d) (base h.name)) 420 false ∷ [])
          (dir_name d)
  unfolding file_lines
  file_lines_file h lines fs d f o e g = elim (Option-cases (checksum_line h)) [
    | inl k ↦ absurd (ground arith)
    | inr (sum, k) ↦
        let file = new_header (full_path (dir_name d) (base h.name)) 420 false in
        let gs = fs ++ file ∷ [] in
        let same : field b'R' (base h.name) ∷ perm_lines b'a' 420 h ++ sum ≡ lines = ground arith in
        let perms = perm_lines_file h 420 gs d file o in
        let sums = checksum_Reads h sum gs perms.last_dir perms.last_file k in
        rw (← same) (
          first b'R' (base h.name) (at fs d f) (perm_lines b'a' 420 h ++ sum) gs d (some file)
            (dir_name d) (file_field (base h.name) fs d f)
            (Reads-append (perm_lines b'a' 420 h) sum (at gs d (some file)) gs gs (dir_name d)
              (dir_name d) perms (rw perms.knows at sums)))
  ]

  -- A file, and those behind it.
  joined :
      (one rest : List Bytes) (fs : List Installed.Header) (hs : List Header) (x : Installed.Header)
      (d f : Option Installed.Header) (b e : Option Bytes)
      → (a : Reads one (at fs d f) (fs ++ x ∷ []) b)
      → Reads rest
          (at (fs ++ x ∷ []) a.last_dir a.last_file)
          ((fs ++ x ∷ []) ++ read_files (dir_name a.last_dir) hs)
          e
      → Reads (one ++ rest) (at fs d f) (fs ++ x ∷ read_files b hs) e
  joined one rest fs hs x d f b e a r =
      let r' = (rw (a.knows, append_assoc fs (x ∷ []) (read_files b hs)) at r) in
      Reads-append one rest (at fs d f) (fs ++ x ∷ []) (fs ++ x ∷ read_files b hs) b e a r'

  -- The lines of the files are read as the paths and kinds of these.
  pub files_lines_lem :
      (hs : List Header) (lines : List Bytes) (fs : List Installed.Header)
      (d f : Option Installed.Header)
      → All IsOwned hs
      → files_lines hs ≡ some lines
      → (dir : Option Bytes) × Reads lines (at fs d f) (fs ++ read_files (dir_name d) hs) dir
  unfolding files_lines
  files_lines_lem [] lines fs d f o e =
      let same : [] ≡ lines = cc e in
      (
        dir_name d,
        rw (append-nil fs, ← same)
            (record { last_dir = d; last_file = f; knows = refl; runs = λ ls nr. (nr, refl) }),
      )
  files_lines_lem (h ∷ hs) lines fs d f (o, os) e = elim (Option-cases (file_lines h)) [
    | inl g ↦ absurd (ground arith)
    | inr (one, g) ↦ elim (Option-cases (files_lines hs)) [
      | inl k ↦ absurd (ground arith)
      | inr (rest, k) ↦
          let same : one ++ rest ≡ lines = ground arith in
          elim (Bool-cases (is_dir h)) [
            | inl b ↦
                let x = new_header (trim_slash h.name) 493 true in
                let a = file_lines_dir h one fs d f o b g in
                let (dir, r) = files_lines_lem hs rest (fs ++ x ∷ []) a.last_dir a.last_file os k in
                (
                  dir,
                  rw (b, ← same) (joined one rest fs hs x d f (some (trim_slash h.name)) dir a r),
                )
            | inr b ↦
                let x = new_header (full_path (dir_name d) (base h.name)) 420 false in
                let a = file_lines_file h one fs d f o b g in
                let (dir, r) = files_lines_lem hs rest (fs ++ x ∷ []) a.last_dir a.last_file os k in
                (dir, rw (b, ← same) (joined one rest fs hs x d f (dir_name d) dir a r))
          ]
    ]
  ]
