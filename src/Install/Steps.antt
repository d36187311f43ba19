-- ===== src/Install/Steps.antt =====
-- pkg/apk/install.go: an installation is a sequence of the file system's operations.
use Prim.Native.Nat.{◌%◌}
use mathlib.Core.Bool.{◌&&◌, not}
use go_apk.Base.{
  ℕ, Bool, true, false, List, [], ◌∷◌, ◌≡◌, ◌⊎◌, leb, refl, inl, inr, arith, Bool-cases,
  Option-cases, is_nil, is_nil-false, length,
}
use go_apk.Base.Bytes.{Bytes, str_eq, str_eq_iff, has_prefix}
use go_apk.Base.Maps.{Map}
use go_apk.MemFs.{permissions, MemFs, Result, ok, err}
use go_apk.MemFs.Lookup.{stat}
use go_apk.MemFs.Entries.{mkdir_all, symlink, readlink, link, remove}
use go_apk.MemFs.Attributes.{set_xattr}
use go_apk.MemFs.Files.{MemFile, open_file, open_to_read, write, drop, read_only}
use go_apk.MemFs.Resolution.{Result-cases}
use go_apk.MemFs.Reach.{
  Growth, by_mkdir_all, by_symlink, by_link, by_set_xattr, by_open_file, by_write, grows, by_remove,
  Reach, here, next,
}
use go_apk.Install.{
  PackageRef, Header, Reader, Library, Failure, Outcome, done, failed, Run, chain, lift,
  xattr_prefix, listed,
}
use go_apk.Install.Files.{
  creating, write_chunks, limit, joined, copy_n, write_new, sum_opened, write_one_file, set_xattrs,
  finish_file, as_exists, settle_conflict, settle, checksum_from_header, with_sum, with_checksum,
  install_regular_file,
}
use go_apk.Install.Conflicts.{settle_conflict_lem}
use go_apk.Install.Entries.{is_linked_dir, install_dir, install_symlink}

pub Outcome-cases :
    {A : Type 0} (o : Outcome A) → ((a : A) × (o ≡ done a)) ⊎ ((e : Failure) × (o ≡ failed e))
Outcome-cases (done a) = inl (a, refl)
Outcome-cases (failed e) = inr (e, refl)

-- A chain that succeeds has a first step that does.
pub chain-done :
    {S A B : Type 0} (m : S × Outcome A) (f : A → Run S B) (b : B)
    → (chain m f).1 ≡ done b
    → (a : A) × (m.1 ≡ done a) × ((f a m.0).1 ≡ done b)
chain-done (t, done a) f b e = (a, refl, e)
chain-done (t, failed x) f b e = absurd (cc e)

pub Reach-trans : (a b c : MemFs) → Reach a b → Reach b c → Reach a c
Reach-trans a b c h here = h
Reach-trans a b c h (next {s} k e) = next (Reach-trans a b s h k) e

-- A run whose steps keep to a transitive relation.
module _ {S A B : Type 0} (R : S → S → Type 0) (R-trans : (a b c : S) → R a b → R b c → R a c) where
  pub chain_lem :
      (s : S) (m : S × Outcome A) (f : A → Run S B)
      → R s m.0
      → ((a : A) → R m.0 (f a m.0).0)
      → R s (chain m f).0
  chain_lem s (t, done a) f h k = R-trans s t _ h (k a)
  chain_lem s (t, failed e) f h k = h

then-Reach :
    {A B : Type 0} (fs : MemFs) (m : MemFs × Outcome A) (f : A → Run MemFs B)
    → Reach fs m.0
    → ((a : A) → Reach m.0 (f a m.0).0)
    → Reach fs (chain m f).0
then-Reach = chain_lem Reach Reach-trans

lifted : {A : Type 0} (fs : MemFs) (m : MemFs × Result A) → Reach fs m.0 → Reach fs (lift m).0
lifted fs (t, ok a) h = h
lifted fs (t, err e) h = h

pub grown : {fs fs' : MemFs} → Growth fs fs' → Reach fs fs'
grown g = next here (grows g)

write_chunks-Reach :
    (cs : List Bytes) (f : MemFile) (fs : MemFs) → Reach fs (write_chunks cs f fs).0
unfolding write_chunks
write_chunks-Reach [] f fs = here
write_chunks-Reach (c ∷ cs) f fs = elim (Bool-cases (is_nil c)) [
  | inl e ↦ rw (e, write_chunks) (write_chunks-Reach cs f fs)
  | inr e ↦
      rw (e, write_chunks)
        (then-Reach fs (lift (write f c fs)) (write_chunks cs)
          (lifted fs (write f c fs) (grown (by_write f c refl))) λ f'. write_chunks-Reach cs f' _)
]

copy_n-Reach : (r : Reader) (size : ℕ) (f : MemFile) (fs : MemFs) → Reach fs (copy_n r size f fs).0
unfolding copy_n
copy_n-Reach r size f fs =
    then-Reach fs (write_chunks (limit size r.chunks) f fs) _
      (write_chunks-Reach (limit size r.chunks) f fs)
      λ f'. elim (Bool-cases (leb size (length (joined r.chunks)))) [
        | inl e ↦ rw e here
        | inr e ↦ rw e (elim (Bool-cases r.fails) [ inl g ↦ rw g here | inr g ↦ rw g here ])
      ]

write_new-Reach : (h : Header) (r : Reader) (fs : MemFs) → Reach fs (write_new h r fs).0
unfolding write_new
write_new-Reach h r fs =
    let m = open_file h.name creating h.file_mode fs in
    then-Reach fs (lift m) (copy_n r h.size)
      (lifted fs m (grown (by_open_file h.name creating h.file_mode refl)))
      λ f. copy_n-Reach r h.size f _

sum_opened-Reach :
    (lib : Library) (fs : MemFs) (m : MemFs × Result MemFile)
    → Reach fs m.0
    → Reach fs (sum_opened lib m).0
sum_opened-Reach lib fs (t, ok f) h = h
sum_opened-Reach lib fs (t, err e) h = h

write_one_file-Reach :
    (lib : Library) (h : Header) (r : Reader) (allow : Bool) (fs : MemFs)
    → Reach fs (write_one_file lib h r allow fs).0
unfolding write_one_file open_to_read
write_one_file-Reach lib h r allow fs = elim (Result-cases (stat fs h.name)) [
  | inr (e, f) ↦ rw (f, write_one_file) (write_new-Reach h r fs)
  | inl (n, f) ↦ elim (Bool-cases allow) [
    | inl a ↦
        rw (f, write_one_file)
          (rw a (
            then-Reach fs (lift (remove h.name fs)) (λ u. write_new h r)
              (lifted fs (remove h.name fs) (next here (by_remove h.name refl)))
              λ u. write_new-Reach h r _))
    | inr a ↦
        rw (f, write_one_file)
          (rw a (
            sum_opened-Reach lib fs (open_to_read h.name fs)
              (grown (by_open_file h.name read_only (permissions 420) refl))))
  ]
]

set_xattrs-Reach : (name : Bytes) (m : Map Bytes) (fs : MemFs) → Reach fs (set_xattrs name m fs).0
unfolding set_xattrs
set_xattrs-Reach name [] fs = here
set_xattrs-Reach name ((k, v) ∷ m) fs = elim (Bool-cases (has_prefix k xattr_prefix)) [
  | inr e ↦ rw (e, set_xattrs) (set_xattrs-Reach name m fs)
  | inl e ↦
      let attr = drop (length xattr_prefix) k in
      rw (e, set_xattrs)
        (then-Reach fs (lift (set_xattr name attr v fs)) (λ u. set_xattrs name m)
          (lifted fs (set_xattr name attr v fs) (grown (by_set_xattr name attr v refl)))
          λ u. set_xattrs-Reach name m _)
]

finish_file-Reach :
    (lib : Library) (h : Header) (sum : Bytes) (fs : MemFs) → Reach fs (finish_file lib h sum fs).0
unfolding finish_file
finish_file-Reach lib h sum fs =
    let m = lib.visit (with_checksum sum h).pax_records in
    then-Reach fs (set_xattrs h.name m fs) _ (set_xattrs-Reach h.name m fs) λ u. here

pub install_dir-Reach :
    (lib : Library) (h : Header) (fs : MemFs) → Reach fs (install_dir lib h fs).0
unfolding install_dir
install_dir-Reach lib h fs = elim (Bool-cases (is_linked_dir fs h.name)) [
  | inl e ↦ rw (e, install_dir) here
  | inr e ↦
      let perm = permissions (h.file_mode.bits % 512) in
      rw (e, install_dir)
        (then-Reach fs (lift (mkdir_all h.name perm fs)) _
          (lifted fs (mkdir_all h.name perm fs) (grown (by_mkdir_all h.name perm refl)))
          λ u. set_xattrs-Reach h.name (lib.visit h.pax_records) _)
]

settle_conflict-Reach :
    (lib : Library) (owners : Map PackageRef) (h : Header) (r : Reader) (pkg : PackageRef)
    (sum old : Bytes) (fs : MemFs)
    → Reach fs (settle_conflict lib owners h r pkg sum old fs).0
unfolding settle_conflict
settle_conflict-Reach lib owners h r pkg sum old fs =
    elim (settle_conflict_lem lib owners h r pkg sum old fs) [
      | inr (same, u) ↦ rw same here
      | inl may ↦
          let known = is_nil-false pkg.value.origin may.known in
          let other : str_eq sum old ≡ false =
            let n = may.other in ground (arith, str_eq_iff sum old) in
          let allowed : (not (str_eq may.owner.value.origin pkg.value.origin)
                && not (listed may.owner.value.name pkg.value.replaces))
              ≡ false =
            let r = may.right in
            ground (arith, str_eq_iff may.owner.value.origin pkg.value.origin) in
          rw (known, settle_conflict)
            (rw (other, settle_conflict)
              (rw (may.owned, settle_conflict)
                (rw (may.not_replaced, settle_conflict)
                  (rw (allowed, settle_conflict)
                    (then-Reach fs (write_one_file lib h r true fs) _
                      (write_one_file-Reach lib h r true fs) λ u. finish_file-Reach lib h sum _)))))
    ]

settle-Reach :
    (lib : Library) (owners : Map PackageRef) (h : Header) (r : Reader) (pkg : PackageRef)
    (sum : Bytes) (fs : MemFs) (m : MemFs × Outcome (Unit {0}))
    → Reach fs m.0
    → Reach fs (settle lib owners h r pkg sum m).0
settle-Reach lib owners h r pkg sum fs (t, done u) k =
    Reach-trans fs t _ k (finish_file-Reach lib h sum t)
settle-Reach lib owners h r pkg sum fs (t, failed e) k = elim (Option-cases (as_exists e)) [
  | inl f ↦ rw (f, settle) k
  | inr (old, f) ↦
      rw (f, settle) (Reach-trans fs t _ k (settle_conflict-Reach lib owners h r pkg sum old t))
]

pub install_regular_file-Reach :
    (lib : Library) (owners : Map PackageRef) (h : Header) (r : Reader) (pkg : PackageRef)
    (fs : MemFs)
    → Reach fs (install_regular_file lib owners h r pkg fs).0
unfolding install_regular_file
install_regular_file-Reach lib owners h r pkg fs = elim (Outcome-cases (checksum_from_header h)) [
  | inr (e, f) ↦ rw (f, install_regular_file) here
  | inl (given, f) ↦ elim (Outcome-cases (with_sum lib r given)) [
    | inr (e, g) ↦ rw (f, install_regular_file) (rw (g, install_regular_file) here)
    | inl ((sum, r'), g) ↦
        rw (f, install_regular_file)
          (rw (g, install_regular_file)
            (settle-Reach lib owners h r' pkg sum fs (write_one_file lib h r' false fs)
              (write_one_file-Reach lib h r' false fs)))
  ]
]

pub install_symlink-Reach : (h : Header) (fs : MemFs) → Reach fs (install_symlink h fs).0
unfolding install_symlink
install_symlink-Reach h fs =
    let make =
      then-Reach fs (lift (symlink h.link_name h.name fs)) (λ u s. (s, done true))
        (lifted fs (symlink h.link_name h.name fs) (grown (by_symlink h.link_name h.name refl)))
        (λ u. here) in
    elim (Result-cases (readlink fs h.name)) [
      | inr (e, f) ↦ rw (f, install_symlink) make
      | inl (target, f) ↦ elim (Bool-cases (str_eq target h.link_name)) [
        | inl g ↦ rw (f, install_symlink) (rw g here)
        | inr g ↦ rw (f, install_symlink) (rw g make)
      ]
    ]

pub install_link-Reach : (old new : Bytes) (fs : MemFs) → Reach fs (lift (link old new fs)).0
install_link-Reach old new fs = lifted fs (link old new fs) (grown (by_link old new refl))
