-- ===== src/Install/Files.antt =====
-- pkg/apk/install.go: `writeOneFile`, `checksumFromHeader` and `installRegularFile`.
use Prim.Native.Nat.{suc, ◌+◌, ◌-◌, ◌*◌}
use mathlib.Core.Bool.{◌&&◌, not}
use go_apk.Base.{
  ℕ, Bool, true, false, List, [], ◌∷◌, ◌++◌, Option, none, some, ◌==◌, leb, if◌then◌else◌, is_nil,
  length,
}
use go_apk.Base.Bytes.{Bytes, codes, str_eq, has_prefix, is_digit}
use go_apk.Base.Base64.{encode_base64, decode_base64}
use go_apk.Base.Maps.{Map, lookup, insert}
use go_apk.MemFs.{MemFs, Result, ok, err}
use go_apk.MemFs.Lookup.{stat}
use go_apk.MemFs.Entries.{remove}
use go_apk.MemFs.Attributes.{set_xattr}
use go_apk.MemFs.Files.{
  Flags, read_only, MemFile, open_file, open_to_read, write, take, drop, copy_all,
}
use go_apk.Install.{
  PackageRef, Header, Reader, Library, Failure, file_system, exists, bad_checksum, unreadable,
  no_temp_file, short_content, not_installed, different, unfinished, Outcome, done, failed, Run,
  chain, ◌>=>◌, lift, listed, checksum_key, xattr_prefix,
}

-- `O_EXCL` is set too, but the file system does not look at it.
abbrev pub creating : Flags
creating = record read_only { create = true; write_only = true }

-- `io.LimitReader`.
unfoldable pub limit : ℕ → List Bytes → List Bytes
limit n [] = []
limit n (c ∷ cs) = let rest = limit (n - length c) cs in if n == 0 then [] else take n c ∷ rest

unfoldable pub joined : List Bytes → Bytes
joined [] = []
joined (c ∷ cs) = c ++ joined cs

-- The loop of `io.Copy` into a file.
unfoldable pub write_chunks : List Bytes → MemFile → Run MemFs MemFile
write_chunks [] f fs = (fs, done f)
write_chunks (c ∷ cs) f fs =
    let skip = write_chunks cs f fs in
    if is_nil c then skip else chain (lift (write f c fs)) (write_chunks cs)

-- `io.CopyN` of as many bytes as the header says.
unfoldable pub copy_n : Reader → ℕ → MemFile → Run MemFs (Unit {0})
copy_n r size f = write_chunks (limit size r.chunks) f >=> λ f' fs.
    if leb size (length (joined r.chunks))
    then (fs, done tt)
    else if r.fails
    then (fs, failed unreadable)
    else (fs, failed short_content)

-- The file is opened, and what the reader gives is written.
unfoldable pub write_new : Header → Reader → Run MemFs (Unit {0})
write_new h r = (λ fs. lift (open_file h.name creating h.file_mode fs)) >=> copy_n r h.size

-- The calls of `Read` that are enough: one for each byte, and one for the end.
abbrev pub rounds_for : MemFs → MemFile → ℕ
rounds_for fs f = elim f.node [ none ↦ 1 | some i ↦ suc (length (fs.node i).contents) ]

abbrev pub sum_read : Library → Option (Result Bytes) → Failure
sum_read lib none = unfinished
sum_read lib (some (err e)) = file_system e
sum_read lib (some (ok b)) = exists (lib.sha1 b)

-- The error for a file that is there, with its sum.
abbrev pub sum_opened : Library → MemFs × Result MemFile → MemFs × Outcome (Unit {0})
sum_opened lib (fs, err e) = (fs, failed (file_system e))
sum_opened lib (fs, ok f) = (fs, failed (sum_read lib (copy_all (rounds_for fs f) fs f [])))

-- `writeOneFile`.
unfoldable pub write_one_file : Library → Header → Reader → Bool → Run MemFs (Unit {0})
write_one_file lib h r allow_overwrite fs = elim (stat fs h.name) [
  | err e ↦ write_new h r fs
  | ok n ↦
      if allow_overwrite
      then chain (lift (remove h.name fs)) (λ u. write_new h r)
      else sum_opened lib (open_to_read h.name fs)
]

-- `hex.DecodeString`.
unfoldable pub hex_digit : ℕ → Option ℕ
hex_digit c =
    if is_digit c
    then some (c - b'0')
    else if leb b'a' c && leb c b'f'
    then some (c - b'a' + 10)
    else if leb b'A' c && leb c b'F'
    then some (c - b'A' + 10)
    else none

abbrev pub hex_byte : ℕ → ℕ → Option ℕ
hex_byte a b = elim (hex_digit a) [
  | none ↦ none
  | some x ↦ elim (hex_digit b) [ none ↦ none | some y ↦ some (x * 16 + y) ]
]

unfoldable pub decode_hex : Bytes → Option Bytes
decode_hex [] = some []
decode_hex (a ∷ []) = none
decode_hex (a ∷ b ∷ s) = elim (hex_byte a b) [
  | none ↦ none
  | some x ↦ elim (decode_hex s) [ none ↦ none | some t ↦ some (x ∷ t) ]
]

-- `checksumFromHeader`: there may be no checksum.
unfoldable pub checksum_from_header : Header → Outcome (Option Bytes)
checksum_from_header h = elim (lookup checksum_key h.pax_records) [
  | none ↦ done none
  | some v ↦
      if has_prefix v (codes "Q1")
      then elim (decode_base64 (drop 2 v)) [
        | none ↦ failed bad_checksum
        | some sum ↦ done (some sum)
      ]
      else elim (decode_hex v) [ none ↦ failed bad_checksum | some sum ↦ done (some sum) ]
]

-- Where there is none it is calculated, and the file is then read from a temporary file.
unfoldable pub with_sum : Library → Reader → Option Bytes → Outcome (Bytes × Reader)
with_sum lib r (some sum) = done (sum, r)
with_sum lib r none =
    if r.fails then failed unreadable else elim (lib.temp_file (joined r.chunks)) [
      | none ↦ failed no_temp_file
      | some chunks ↦ done (lib.sha1 (joined r.chunks), record { chunks = chunks; fails = false })
    ]

-- The attributes among the records, in the order in which they are visited.
unfoldable pub set_xattrs : Bytes → Map Bytes → Run MemFs (Unit {0})
set_xattrs name [] fs = (fs, done tt)
set_xattrs name ((k, v) ∷ m) fs =
    let skip = set_xattrs name m fs in
    if has_prefix k xattr_prefix
    then chain (lift (set_xattr name (drop (length xattr_prefix) k) v fs)) (λ u. set_xattrs name m)
    else skip

-- The header with the checksum as the database has it.
abbrev pub with_checksum : Bytes → Header → Header
with_checksum sum h = record h {
  pax_records = insert checksum_key (codes "Q1" ++ encode_base64 sum) h.pax_records;
}

-- What follows when the file is written. The Boolean says that it is.
unfoldable pub finish_file : Library → Header → Bytes → Run MemFs (Header × Bool)
finish_file lib h sum = set_xattrs h.name (lib.visit (with_checksum sum h).pax_records) >=> λ u fs.
    (fs, done (with_checksum sum h, true))

-- A file is there, with the sum `old`: whether it stays, is replaced, or is an error.
unfoldable pub settle_conflict :
    Library
    → Map PackageRef
    → Header
    → Reader
    → PackageRef
    → Bytes
    → Bytes
    → Run MemFs (Header × Bool)
settle_conflict lib owners h r pkg sum old fs =
    if is_nil pkg.value.origin
    then (fs, failed (exists old))
    else if str_eq sum old
    then (fs, done (h, false))
    else elim (lookup h.name owners) [
      | none ↦ (fs, failed not_installed)
      | some owner ↦
          if listed pkg.value.name owner.value.replaces
          then (fs, done (h, false))
          else if not (str_eq owner.value.origin pkg.value.origin)
              && not (listed owner.value.name pkg.value.replaces)
          then (fs, failed different)
          else chain (write_one_file lib h r true fs) (λ u. finish_file lib h sum)
    ]

-- `errors.As` with a `FileExistsError`.
unfoldable pub as_exists : Failure → Option Bytes
as_exists (exists old) = some old
as_exists e = none

abbrev pub settle :
    Library
    → Map PackageRef
    → Header
    → Reader
    → PackageRef
    → Bytes
    → MemFs × Outcome (Unit {0})
    → MemFs × Outcome (Header × Bool)
settle lib owners h r pkg sum (fs, done u) = finish_file lib h sum fs
settle lib owners h r pkg sum (fs, failed e) = elim (as_exists e) [
  | none ↦ (fs, failed e)
  | some old ↦ settle_conflict lib owners h r pkg sum old fs
]

-- `installRegularFile`; `owners` is `installedFiles`.
unfoldable pub install_regular_file :
    Library → Map PackageRef → Header → Reader → PackageRef → Run MemFs (Header × Bool)
install_regular_file lib owners h r pkg fs = elim (checksum_from_header h) [
  | failed e ↦ (fs, failed e)
  | done given ↦ elim (with_sum lib r given) [
    | failed e ↦ (fs, failed e)
    | done (sum, r') ↦ settle lib owners h r' pkg sum (write_one_file lib h r' false fs)
  ]
]
