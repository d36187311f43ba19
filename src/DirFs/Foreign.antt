-- ===== src/DirFs/Foreign.antt =====
-- pkg/fs/rwosfs.go: the operations of `dirFS` on a name of which another variant is on disk.
use go_apk.Base.{
  ℕ, Bool, true, false, [], Option, some, ◌≡◌, ◌≢◌, ◌∙◌, sym, refl, ap, inl, inr, Bool-cases,
  Option-cases, if◌then◌else◌,
}
use go_apk.Base.Bytes.{Bytes, str_eq, str_eq_iff, has_prefix}
use go_apk.Base.Decimal.{ℤ}
use go_apk.Base.Maps.{Map, lookup}
use go_apk.Base.Paths.{clean}
use go_apk.MemFs
use go_apk.MemFs.{Mode, MemFs, Op}
use go_apk.MemFs.Entries.{Unix}
use go_apk.MemFs.Entries
use go_apk.MemFs.Attributes
use go_apk.MemFs.Files
use go_apk.MemFs.Files.{Flags}
use go_apk.DirFs.{
  to_lower, standardize_path, look_on_disk, case_sensitive_on_disk, create_on_disk, remove_on_disk,
  sanitize_path,
}
use go_apk.DirFs.Store.{
  Os, Outcome, done, failed, Store, Step, chain, ◌>=>◌, memory, as_memory, is_on_disk, creates,
  removes, when, skip,
}
use go_apk.DirFs.Operations.{
  File, memory_file, open_in_memory, path_of, full_perm, open_named, open_file, create, remove,
  write_file, link, symlink, mkdir_all, mkdir, chmod, chown, mknod, set_xattr, remove_xattr,
}

module _ {D F : Type 0} (os : Os D F) (base : Bytes) where
  -- The operations on a name that may change the disk, whether they succeed or fail.
  pub data Change (name : Bytes) (s t : Store D) : Type 0 where
    by_open : t ≡ (open_named os base name s).0 → Change name s t
    by_open_file :
        (flag : Flags) (perm : Mode) → t ≡ (open_file os base name flag perm s).0 → Change name s t
    by_create : t ≡ (create os base name s).0 → Change name s t
    by_remove : t ≡ (remove os base name s).0 → Change name s t
    by_write_file :
        (b : Bytes) (mode : Mode) → t ≡ (write_file os base name b mode s).0 → Change name s t
    by_link : (old_name : Bytes) → t ≡ (link os base old_name name s).0 → Change name s t
    by_symlink : (old_name : Bytes) → t ≡ (symlink os base old_name name s).0 → Change name s t
    by_mkdir_all : (perm : Mode) → t ≡ (mkdir_all os base name perm s).0 → Change name s t
    by_mkdir : (perm : Mode) → t ≡ (mkdir os base name perm s).0 → Change name s t
    by_chmod : (perm : Mode) → t ≡ (chmod os base name perm s).0 → Change name s t
    by_chown : (uid gid : ℤ) → t ≡ (chown os base name uid gid s).0 → Change name s t
    by_mknod :
        (unix : Unix) (mode : Mode) (dev : ℕ)
        → t ≡ (mknod os base unix name mode dev s).0
        → Change name s t
    by_set_xattr :
        (attr value : Bytes) → t ≡ (set_xattr os base name attr value s).0 → Change name s t
    by_remove_xattr : (attr : Bytes) → t ≡ (remove_xattr os base name attr s).0 → Change name s t

  pub data Changes (name : Bytes) (s : Store D) : Store D → Type 0 where
    here : Changes name s s
    next : {t u : Store D} → Changes name s t → Change name t u → Changes name s u

-- Where another variant of the name is on disk, all answers are no.
module _ (m : Map Bytes) (name v : Bytes) (plain : standardize_path name ≡ some name)
    (taken : lookup (to_lower name) m ≡ some v) (other : v ≢ name) where
  not_it : str_eq v name ≡ false
  not_it = elim (Bool-cases (str_eq v name)) [
    | inl e ↦ absurd (other ((str_eq_iff v name).0 e))
    | inr e ↦ e
  ]

  case_sensitive-No : case_sensitive_on_disk (some m) name ≡ some false
  unfolding case_sensitive_on_disk look_on_disk
  case_sensitive-No = rw (plain, case_sensitive_on_disk) (rw (taken, look_on_disk) (rw not_it refl))

  create_on_disk-No : create_on_disk (some m) name ≡ some (false, some m)
  unfolding create_on_disk
  create_on_disk-No = rw (plain, create_on_disk) (rw taken (rw not_it refl))

  remove_on_disk-No : remove_on_disk (some m) name ≡ (false, some m)
  unfolding remove_on_disk
  remove_on_disk-No = rw (taken, remove_on_disk) (rw not_it refl)

-- The step leaves the variants and the disk as they are.
module _ {D : Type 0} (m : Map Bytes) where
  abbrev pub Kept : Store D → Store D → Type 0
  Kept s t = (t.case_map ≡ some m) × (t.disk ≡ s.disk)

  abbrev Safe : {A : Type 0} → Step D A → Type 0
  Safe step = (s : Store D) → s.case_map ≡ some m → Kept s (step s).0

  memory-Safe : {A : Type 0} (op : Op A) → Safe (memory op)
  memory-Safe {A = A} op s e = go (op s.overrides)
    where
      go : (r : MemFs × MemFs.Result A) → Kept s (as_memory s r).0
      go (fs, MemFs.ok a) = (e, refl)
      go (fs, MemFs.err x) = (e, refl)

  done-Safe : {A : Type 0} (a : A) → Safe (λ s. (s, done a))
  done-Safe a s e = (e, refl)

  then-Safe :
      {A B : Type 0} (p : Step D A) (f : A → Step D B)
      → Safe p
      → ((a : A) → Safe (f a))
      → Safe (p >=> f)
  then-Safe {A = A} {B = B} p f h k s e = go (p s) (h s e)
    where
      go : (r : Store D × Outcome A) → Kept s r.0 → Kept s (chain r f).0
      go (t, failed x) q = q
      go (t, done a) (c, d) = let (c', d') = k a t c in (c', d' ∙ d)

  if-Safe : {A : Type 0} (b : Bool) (p q : Step D A) → Safe p → Safe q → Safe (if b then p else q)
  if-Safe true p q h k = h
  if-Safe false p q h k = k

  -- A question that is answered with no.
  abbrev No : Step D Bool → Type 0
  No p = (s : Store D) → s.case_map ≡ some m → p s ≡ (s, done false)

  No-Safe :
      {B : Type 0} (p : Step D Bool) (f : Bool → Step D B) → No p → Safe (f false) → Safe (p >=> f)
  No-Safe p f n h s e = rw (n s e) (h s e)

  module _ (name v : Bytes) (plain : standardize_path name ≡ some name)
      (taken : lookup (to_lower name) m ≡ some v) (other : v ≢ name) where
    is_on_disk-No : No (is_on_disk name)
    unfolding is_on_disk
    is_on_disk-No s e =
        let no : case_sensitive_on_disk s.case_map name ≡ some false =
          ap (λ c. case_sensitive_on_disk c name) e
          ∙ case_sensitive-No m name v plain taken other in
        rw (no, is_on_disk) refl

    creates-No : No (creates name)
    unfolding creates
    creates-No s e =
        let no : create_on_disk s.case_map name ≡ some (false, s.case_map) =
          ap (λ c. create_on_disk c name) e
          ∙ create_on_disk-No m name v plain taken other
          ∙ ap (λ (c : Option (Map Bytes)). some (false, c)) (sym e) in
        rw (no, creates) refl

    removes-No : No (removes name)
    unfolding removes
    removes-No s e =
        let no : remove_on_disk s.case_map name ≡ (false, s.case_map) =
          ap (λ c. remove_on_disk c name) e
          ∙ remove_on_disk-No m name v plain taken other
          ∙ ap (λ (c : Option (Map Bytes)). (false, c)) (sym e) in
        rw (no, removes) refl

    module _ {F : Type 0} (os : Os D F) (base : Bytes) where
      -- Created on disk or not, and then in memory.
      created-Safe :
          (p : Step D Bool) (f : Bool → Step D (Unit {0})) (g : Bool → Op (Unit {0}))
          → No p
          → Safe (p >=> λ b. when b (f b) >=> λ u. memory (g b))
      created-Safe p f g n =
          No-Safe p (λ b. when b (f b) >=> λ u. memory (g b)) n
            (then-Safe skip (λ u. memory (g false)) (done-Safe tt) λ u. memory-Safe (g false))

      in_memory-Safe : (flag : Flags) (perm : Mode) → Safe (open_in_memory os base name flag perm)
      in_memory-Safe flag perm =
          then-Safe (memory (Files.open_file name flag perm)) (λ h s. (s, done (memory_file h)))
            (memory-Safe (Files.open_file name flag perm))
            λ h. done-Safe {A = File F} (memory_file h)

      Change-Kept : (s t : Store D) → s.case_map ≡ some m → Change os base name s t → Kept s t
      unfolding write_file symlink mkdir mkdir_all chmod chown mknod set_xattr remove_xattr remove
          create open_file open_named link
      Change-Kept s t e (by_write_file b mode f) = rw f (
          created-Safe (creates name) _ (λ c. Files.write_file name (if c then [] else b) mode)
            creates-No s e)
      Change-Kept s t e (by_symlink old f) =
          rw f (created-Safe (creates name) _ (λ c. Entries.symlink old name) creates-No s e)
      Change-Kept s t e (by_mkdir_all perm f) = rw f (
          created-Safe (creates name) _ (λ c. Entries.mkdir_all name (full_perm os base perm))
            creates-No s e)
      Change-Kept s t e (by_mkdir perm f) = rw f (
          created-Safe (creates name) _ (λ c. Entries.mkdir name (full_perm os base perm))
            creates-No s e)
      Change-Kept s t e (by_chmod perm f) =
          rw f
            (created-Safe (is_on_disk name) _ (λ c. Attributes.chmod name perm) is_on_disk-No s e)
      Change-Kept s t e (by_chown uid gid f) =
          rw f (
            created-Safe (is_on_disk name) _ (λ c. Attributes.chown name uid gid) is_on_disk-No s e)
      Change-Kept s t e (by_mknod unix mode dev f) = rw f (
          created-Safe (is_on_disk name) _ (λ c. Entries.mknod unix name mode dev) is_on_disk-No s
            e)
      Change-Kept s t e (by_set_xattr attr value f) =
          rw f (memory-Safe (Attributes.set_xattr name attr value) s e)
      Change-Kept s t e (by_remove_xattr attr f) =
          rw f (memory-Safe (Attributes.remove_xattr name attr) s e)
      Change-Kept s t e (by_remove f) = rw f (
          then-Safe (memory (Entries.remove name)) _ (memory-Safe (Entries.remove name))
            (λ u. No-Safe (removes name) _ removes-No (done-Safe tt)) s e)
      Change-Kept s t e (by_create f) = rw f (
          then-Safe (memory (Files.create_file name)) _ (memory-Safe (Files.create_file name))
            (λ g. No-Safe (creates name) _ creates-No (done-Safe {A = File F} (memory_file g))) s e)
      Change-Kept s t e (by_open_file flag perm f) = rw f (
          if-Safe flag.create _ _
            (then-Safe (open_in_memory os base name flag perm) _ (in_memory-Safe flag perm)
              λ g. No-Safe (creates name) _ creates-No (done-Safe g))
            (No-Safe (is_on_disk name) _ is_on_disk-No (in_memory-Safe flag perm)) s e)
      Change-Kept s t e (by_open f) = elim (Option-cases (sanitize_path base name)) [
        | inl g ↦ rw f (rw (g, open_named) (e, refl))
        | inr (path, g) ↦ rw f (
            rw (g, open_named)
              (No-Safe (is_on_disk name) _ is_on_disk-No
                (then-Safe (memory (Files.open_to_read name)) (λ h s. (s, done (memory_file h)))
                  (memory-Safe (Files.open_to_read name))
                  λ h. done-Safe {A = File F} (memory_file h))
                s e))
      ]
      Change-Kept s t e (by_link old f) =
          elim (Bool-cases (has_prefix (clean (path_of os base old)) base)) [
            | inl g ↦ rw f (
                rw (g, link)
                  (created-Safe (creates name) _ (λ c. Entries.link old name) creates-No s e))
            | inr g ↦ rw f (rw (g, link) (e, refl))
          ]

      Changes-Kept : (s t : Store D) → s.case_map ≡ some m → Changes os base name s t → Kept s t
      Changes-Kept s t e here = (e, refl)
      Changes-Kept s t e (next {t = u} r c) =
          let (f, g) = Changes-Kept s u e r in let (h, k) = Change-Kept u t f c in (h, k ∙ g)

-- Where another variant of a name, one that differs in case, is on disk, no sequence of operations on
-- that name, whether they succeed or fail, changes the disk or which variants are on it. The name has
-- no slash before it.
pub disk-Changes :
    {D F : Type 0} (os : Os D F) (base name v : Bytes) (m : Map Bytes) (s t : Store D)
    → standardize_path name ≡ some name
    → s.case_map ≡ some m
    → lookup (to_lower name) m ≡ some v
    → v ≢ name
    → Changes os base name s t
    → (t.case_map ≡ some m) × (t.disk ≡ s.disk)
disk-Changes os base name v m s t plain e taken other c =
    Changes-Kept m name v plain taken other os base s t e c
