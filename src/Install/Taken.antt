-- ===== src/Install/Taken.antt =====
-- pkg/apk/install.go: where `installRegularFile` says that it has written a file.
use go_apk.Base.{
  Bool, true, false, Option, some, ◌≡◌, ◌⊎◌, ◌∙◌, sym, refl, ap, inl, inr, Bool-cases, Option-cases,
  is_nil,
}
use mathlib.Core.Bool.{◌&&◌, not}
use go_apk.Base.Bytes.{Bytes, str_eq}
use go_apk.Base.Maps.{Map, lookup}
use go_apk.MemFs.{MemFs, Result, ok, err, Error}
use go_apk.MemFs.Lookup.{stat}
use go_apk.MemFs.Files.{MemFile, open_to_read}
use go_apk.MemFs.Resolution.{Result-cases}
use go_apk.Install.{
  PackageRef, Header, Reader, Library, Failure, exists, file_system, bad_checksum, unreadable,
  no_temp_file, short_content, unsupported, unfinished, no_name, bad_database, no_keys_found,
  conflict, not_installed, different, Outcome, done, failed, listed,
}
use go_apk.Install.Files.{
  write_one_file, checksum_from_header, with_sum, as_exists, finish_file, sum_opened, set_xattrs,
  with_checksum, settle_conflict, settle, install_regular_file,
}
use go_apk.Install.Conflicts.{MayReplace, settle_conflict_lem}
use go_apk.Install.Steps.{Outcome-cases, chain-done}

-- No file is at the name, or the package may replace the one that is: the first sum is that of the
-- header, or was calculated, and the second that of the file.
pub record Overwrites (lib : Library) (owners : Map PackageRef) (h : Header) (r : Reader)
    (pkg : PackageRef) (fs : MemFs) : Type 0 where
  pub given : Option Bytes
  pub sum : Bytes
  pub old : Bytes
  pub reader : Reader
  pub in_header : checksum_from_header h ≡ done given
  pub summed : with_sum lib r given ≡ done (sum, reader)
  pub there : (sum_opened lib (open_to_read h.name fs)).1 ≡ failed (exists old)
  pub allowed : MayReplace owners h.name pkg sum old

abbrev pub MayWrite : Library → Map PackageRef → Header → Reader → PackageRef → MemFs → Type 0
MayWrite lib owners h r pkg fs =
    ((e : Error) × (stat fs h.name ≡ err e)) ⊎ Overwrites lib owners h r pkg fs

-- What the operation returns is the header of that name.
abbrev Names : Header → Outcome (Header × Bool) → Type 0
Names h o = (x : Header × Bool) → o ≡ done x → x.0.name ≡ h.name

done-Names : (h k : Header) (b : Bool) → k.name ≡ h.name → Names h (done (k, b))
done-Names h k b e x f = let same : (k, b) ≡ x = cc f in ap (λ y. y.0.name) (sym same) ∙ e

failed-Names : (h : Header) (f : Failure) → Names h (failed f)
failed-Names h f x e = absurd (cc e)

finish_file-Names :
    (lib : Library) (h : Header) (sum : Bytes) (fs : MemFs) → Names h (finish_file lib h sum fs).1
unfolding finish_file
finish_file-Names lib h sum fs x e =
    let (u, f, g) =
      chain-done (set_xattrs h.name (lib.visit (with_checksum sum h).pax_records) fs)
        (λ u s. (s, done (with_checksum sum h, true))) x e in
    done-Names h (with_checksum sum h) true refl x g

settle_conflict-Names :
    (lib : Library) (owners : Map PackageRef) (h : Header) (r : Reader) (pkg : PackageRef)
    (sum old : Bytes) (fs : MemFs)
    → Names h (settle_conflict lib owners h r pkg sum old fs).1
unfolding settle_conflict
settle_conflict-Names lib owners h r pkg sum old fs = elim (Bool-cases (is_nil pkg.value.origin)) [
  | inl a ↦ rw a (failed-Names h (exists old))
  | inr a ↦ elim (Bool-cases (str_eq sum old)) [
    | inl b ↦ rw (a, b) (done-Names h h false refl)
    | inr b ↦ elim (Option-cases (lookup h.name owners)) [
      | inl c ↦ rw (a, b, c) (failed-Names h not_installed)
      | inr (o, c) ↦ elim (Bool-cases (listed pkg.value.name o.value.replaces)) [
        | inl d ↦ rw (a, b, c) (rw d (done-Names h h false refl))
        | inr d ↦
            elim (Bool-cases (
              not (str_eq o.value.origin pkg.value.origin)
              && not (listed o.value.name pkg.value.replaces))) [
                | inl f ↦ rw (a, b, c) (rw (d, f) (failed-Names h different))
                | inr f ↦
                    rw (a, b, c)
                      (rw (d, f)
                        λ x e.
                          let (u, i, j) =
                            chain-done (write_one_file lib h r true fs) (λ u. finish_file lib h sum)
                              x e in
                          finish_file-Names lib h sum _ x j)
              ]
      ]
    ]
  ]
]

-- A file that is there is not written at first.
sum_opened-failed :
    (lib : Library) (m : MemFs × Result MemFile) → (f : Failure) × ((sum_opened lib m).1 ≡ failed f)
sum_opened-failed lib (fs, err e) = (_, refl)
sum_opened-failed lib (fs, ok f) = (_, refl)

as_exists-some : (f : Failure) (old : Bytes) → as_exists f ≡ some old → f ≡ exists old
unfolding as_exists
as_exists-some (exists b) old e = let same : b ≡ old = cc e in rw same refl
as_exists-some (file_system x) old e = absurd (cc e)
as_exists-some bad_checksum old e = absurd (cc e)
as_exists-some unreadable old e = absurd (cc e)
as_exists-some no_temp_file old e = absurd (cc e)
as_exists-some short_content old e = absurd (cc e)
as_exists-some not_installed old e = absurd (cc e)
as_exists-some different old e = absurd (cc e)
as_exists-some unsupported old e = absurd (cc e)
as_exists-some unfinished old e = absurd (cc e)
as_exists-some no_name old e = absurd (cc e)
as_exists-some bad_database old e = absurd (cc e)
as_exists-some no_keys_found old e = absurd (cc e)
as_exists-some conflict old e = absurd (cc e)

module _ (lib : Library) (owners : Map PackageRef) (h : Header) (r : Reader) (pkg : PackageRef)
    (sum : Bytes) where
  settle-Names : (w : MemFs × Outcome (Unit {0})) → Names h (settle lib owners h r pkg sum w).1
  settle-Names (fs, done u) = finish_file-Names lib h sum fs
  settle-Names (fs, failed f) = elim (Option-cases (as_exists f)) [
    | inl e ↦ rw (e, settle) (failed-Names h f)
    | inr (old, e) ↦ rw (e, settle) (settle_conflict-Names lib owners h r pkg sum old fs)
  ]

  -- A file that could not be written at first was one that the package may replace.
  settle-MayReplace :
      (w : MemFs × Outcome (Unit {0})) (f : Failure) (h' : Header)
      → w.1 ≡ failed f
      → (settle lib owners h r pkg sum w).1 ≡ done (h', true)
      → (old : Bytes) × (w.1 ≡ failed (exists old)) × MayReplace owners h.name pkg sum old
  settle-MayReplace (fs, done u) f h' a e = absurd (cc a)
  settle-MayReplace (fs, failed f) _ h' a e = elim (Option-cases (as_exists f)) [
    | inl g ↦ absurd (let e' = (rw (g, settle) at e) in cc e')
    | inr (old, g) ↦ elim (settle_conflict_lem lib owners h r pkg sum old fs) [
      | inl m ↦ (old, ap failed (as_exists-some f old g), m)
      | inr (_, n) ↦ absurd (n h' (rw (g, settle) at e))
    ]
  ]

-- Where a file was written, the header has its name, and it could be written.
pub install_regular_file-MayWrite :
    (lib : Library) (owners : Map PackageRef) (h : Header) (r : Reader) (pkg : PackageRef)
    (fs : MemFs) (h' : Header)
    → (install_regular_file lib owners h r pkg fs).1 ≡ done (h', true)
    → (h'.name ≡ h.name) × MayWrite lib owners h r pkg fs
unfolding install_regular_file write_one_file
install_regular_file-MayWrite lib owners h r pkg fs h' e =
    elim (Outcome-cases (checksum_from_header h)) [
      | inr (x, f) ↦ absurd (let e' = (rw (f, install_regular_file) at e) in cc e')
      | inl (given, f) ↦ elim (Outcome-cases (with_sum lib r given)) [
        | inr (x, g) ↦
            absurd
              (let e' = (rw (f, install_regular_file) at e) in let e'' = (rw g at e') in cc e'')
        | inl ((sum, r'), g) ↦
            let w = write_one_file lib h r' false fs in
            let e' : (settle lib owners h r' pkg sum w).1 ≡ done (h', true) =
              (let k = (rw (f, install_regular_file) at e) in rw g at k) in
            (
              settle-Names lib owners h r' pkg sum w (h', true) e',
              elim (Result-cases (stat fs h.name)) [
                | inr (x, s) ↦ inl (x, s)
                | inl (n, s) ↦
                    let there : w ≡ sum_opened lib (open_to_read h.name fs) =
                      rw (s, write_one_file) refl in
                    let (x, k) = sum_opened-failed lib (open_to_read h.name fs) in
                    let (old, m, may) =
                      settle-MayReplace lib owners h r' pkg sum w x h' (ap (λ y. y.1) there ∙ k)
                        e' in
                    inr (record {
                      given = given;
                      sum = sum;
                      old = old;
                      reader = r';
                      in_header = f;
                      summed = g;
                      there = ap (λ y. y.1) (sym there) ∙ m;
                      allowed = may;
                    })
              ],
            )
      ]
    ]
