-- ===== src/Install/Conflicts.antt =====
-- pkg/apk/install.go: which files that are there a package may replace.
use Prim.Native.Nat.{suc}
use mathlib.Core.Bool.{◌&&◌, not}
use go_apk.Base.{
  Bool, true, false, [], ◌++◌, Option, some, ◌≡◌, ◌≢◌, ◌⊎◌, refl, inl, inr, arith, Bool-cases,
  Option-cases, is_nil, ne_nil_of_false, length,
}
use go_apk.Base.Bytes.{Bytes, str_eq, str_eq_iff, str_eq_refl, codes, has_prefix}
use go_apk.Base.Base64.{IsByte, encode_base64, decode_base64-encode_base64}
use go_apk.Base.Maps.{Map, lookup, lookup-insert}
use go_apk.Base.Lists.{All}
use go_apk.MemFs.{Node, NodeId, permissions, MemFs, ok, max_links}
use go_apk.MemFs.Lookup.{stat}
use go_apk.MemFs.Files.{read_only, open_node}
use go_apk.MemFs.Contents.{open_opened, copy_all_lem}
use go_apk.Install.{
  PackageRef, Header, Reader, Library, exists, Outcome, done, failed, listed, checksum_key,
}
use go_apk.Install.Files.{
  write_one_file, checksum_from_header, with_sum, with_checksum, as_exists, settle_conflict,
  install_regular_file,
}

-- A file is at the name: its node is `c`.
pub record IsThere (fs : MemFs) (name : Bytes) (c : NodeId) : Type 0 where
  pub info : Node
  pub stat_ok : stat fs name ≡ ok info
  pub opens : open_node max_links name read_only (permissions 420) fs ≡ (fs, ok c)

-- The package may put its file, with the sum `sum`, in the place of one with the sum `old`.
pub record MayReplace (owners : Map PackageRef) (name : Bytes) (pkg : PackageRef) (sum old : Bytes)
    : Type 0 where
  pub owner : PackageRef
  pub owned : lookup name owners ≡ some owner
  pub known : pkg.value.origin ≢ []
  pub other : sum ≢ old
  pub not_replaced : listed pkg.value.name owner.value.replaces ≡ false
  pub right :
      (owner.value.origin ≡ pkg.value.origin) ⊎ (listed owner.value.name pkg.value.replaces ≡ true)

-- Without leave to overwrite, nothing is written over a file that is there, and the error has its sum.
write_one_file-IsThere :
    (lib : Library) (h : Header) (r : Reader) (fs : MemFs) (c : NodeId)
    → IsThere fs h.name c
    → write_one_file lib h r false fs ≡ (fs, failed (exists (lib.sha1 (fs.node c).contents)))
unfolding write_one_file
write_one_file-IsThere lib h r fs c t =
    rw (t.stat_ok, write_one_file)
      (rw (open_opened fs h.name c t.opens) (
        rw (copy_all_lem (suc (length (fs.node c).contents)) fs c 0 [] (omega arith) (omega arith))
          refl))

-- Nothing was written, and no file counts as installed.
abbrev pub Untouched : MemFs → MemFs × Outcome (Header × Bool) → Type 0
Untouched fs r = (r.0 ≡ fs) × ((h : Header) → r.1 ≢ done (h, true))

pub settle_conflict_lem :
    (lib : Library) (owners : Map PackageRef) (h : Header) (r : Reader) (pkg : PackageRef)
    (sum old : Bytes) (fs : MemFs)
    → MayReplace owners h.name pkg sum old
      ⊎ Untouched fs (settle_conflict lib owners h r pkg sum old fs)
unfolding settle_conflict
settle_conflict_lem lib owners h r pkg sum old fs = elim (Bool-cases (is_nil pkg.value.origin)) [
  | inl e ↦ inr (rw e (refl, λ k f. absurd (cc f)))
  | inr e ↦ elim (Bool-cases (str_eq sum old)) [
    | inl f ↦ inr (rw (e, f) (refl, λ k g. absurd (cc g)))
    | inr f ↦ elim (Option-cases (lookup h.name owners)) [
      | inl g ↦ inr (rw (e, f, g) (refl, λ k w. absurd (cc w)))
      | inr (owner, g) ↦ elim (Bool-cases (listed pkg.value.name owner.value.replaces)) [
        | inl l ↦ inr (rw (e, f, g) (rw l (refl, λ k w. absurd (cc w))))
        | inr l ↦
            elim (Bool-cases (
              not (str_eq owner.value.origin pkg.value.origin)
              && not (listed owner.value.name pkg.value.replaces))) [
                | inl d ↦ inr (rw (e, f, g) (rw (l, d) (refl, λ k w. absurd (cc w))))
                | inr d ↦ inl (record {
                  owner = owner;
                  owned = g;
                  known = ne_nil_of_false pkg.value.origin e;
                  other = ground (arith, str_eq_iff sum old);
                  not_replaced = l;
                  right = elim (Bool-cases (str_eq owner.value.origin pkg.value.origin)) [
                    | inl s ↦ inl (ground (arith, str_eq_iff owner.value.origin pkg.value.origin))
                    | inr s ↦ inr (ground arith)
                  ];
                })
              ]
      ]
    ]
  ]
]

-- Where a file is at the name, `installRegularFile` leaves the whole file system as it is and does
-- not count the file as installed, unless the package may replace it: its origin is known, the sums
-- differ, a package is noted as the file's owner which does not itself replace this one, and which
-- has the same origin or is replaced by it. The sum is that of the header, or was calculated.
pub install_regular_file-MayReplace :
    (lib : Library) (owners : Map PackageRef) (h : Header) (r r' : Reader) (pkg : PackageRef)
    (fs : MemFs) (c : NodeId) (given : Option Bytes) (sum : Bytes)
    → IsThere fs h.name c
    → checksum_from_header h ≡ done given
    → with_sum lib r given ≡ done (sum, r')
    → MayReplace owners h.name pkg sum (lib.sha1 (fs.node c).contents)
      ⊎ Untouched fs (install_regular_file lib owners h r pkg fs)
unfolding install_regular_file as_exists
install_regular_file-MayReplace lib owners h r r' pkg fs c given sum t e f =
    rw (e, install_regular_file)
      (rw (f, install_regular_file)
        (rw (write_one_file-IsThere lib h r' fs c t)
          (settle_conflict_lem lib owners h r' pkg sum (lib.sha1 (fs.node c).contents) fs)))

-- The checksum that `installRegularFile` puts into the header is the one that `checksumFromHeader`
-- reads from it, where it consists of bytes.
pub checksum_from_header-with_checksum :
    (sum : Bytes) (h : Header)
    → All IsByte sum
    → checksum_from_header (with_checksum sum h) ≡ done (some sum)
unfolding checksum_from_header has_prefix
checksum_from_header-with_checksum sum h b =
    rw
      (
        lookup-insert checksum_key checksum_key (codes "Q1" ++ encode_base64 sum) h.pax_records,
        checksum_from_header,
      )
      (rw (str_eq_refl checksum_key)
        (rw (decode_base64-encode_base64 sum b, checksum_from_header) refl))
