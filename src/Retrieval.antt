-- ===== src/Retrieval.antt =====
-- pkg/apk/index.go: which index of a repository is accepted.
pub mod Laws
pub mod Tests
use mathlib.Core.Bool.{◌&&◌, not}
use go_apk.Base.{
  ℕ, Bool, true, false, List, [], ◌∷◌, ◌++◌, Option, none, some, ◌==◌, if◌then◌else◌, is_nil,
  any_of, length,
}
use go_apk.Base.Bytes.{Bytes, codes, str_eq, has_prefix}
use go_apk.Base.Maps.{Map}
use go_apk.MemFs.Files.{drop}
use go_apk.World.{fields}

-- `indexOpts`, but for how the network is reached.
pub record IndexOpts : Type 0 where
  pub ignore_signatures : Bool
  pub no_signature_indexes : List Bytes

-- What is there at an address: an error, no file, or bytes.
pub data Fetched : Type 0 where
  unreachable missing : Fetched
  fetched : Bytes → Fetched

-- The first part of an archive: the name of its file, the contents, and the bytes that follow it.
pub record Signed : Type 0 where
  pub file_name : Bytes
  pub signature : Bytes
  pub rest : Bytes

-- What the code calls: reading an address, the first part of an archive (compress/gzip and
-- archive/tar), the signature package, and `IndexFromArchive`.
pub record Library (Index : Type 0) : Type 0 where
  pub fetch : Bytes → Fetched
  pub first_part : Bytes → Option Signed
  pub hash_data : Bytes → Option Bytes
  pub verifies : Bytes → Bytes → Bytes → Bool
  pub index_from_archive : Bytes → Option Index

pub data Error : Type 0 where
  not_fetched no_signature no_key_name not_hashed no_keys not_verified bad_index bad_line : Error

pub data Result (A : Type 0) : Type 0 where
  ok : A → Result A
  err : Error → Result A

-- `IndexURL`.
unfoldable pub index_url : Bytes → Bytes → Bytes
index_url repo arch = repo ++ b'/' ∷ (arch ++ b'/' ∷ codes "APKINDEX.tar.gz")

-- `shouldCheckSignatureForIndex`.
unfoldable pub should_check : Bytes → Bytes → IndexOpts → Bool
should_check index arch opts =
    if opts.ignore_signatures
    then false
    else not (any_of (λ ignored. str_eq (index_url ignored arch) index) opts.no_signature_indexes)

unfoldable pub has_suffix : Bytes → Bytes → Bool
has_suffix [] p = is_nil p
has_suffix (c ∷ s) p = let rest = has_suffix s p in if str_eq (c ∷ s) p then true else rest

-- `signatureFileRegex`: whether the name of a file tells a key.
unfoldable pub has_key_name : Bytes → Bool
has_key_name name =
    has_prefix name (codes ".SIGN.RSA.")
    && has_suffix (drop (length (codes ".SIGN.RSA.")) name) (codes ".rsa.pub")
    && not (any_of (λ c. c == 10) name)

-- A line of a repository: its pin, if it has one, and its address.
unfoldable pub parse_repo : Bytes → Option (Bytes × Bytes)
parse_repo repo =
    if has_prefix repo (codes "@")
    then elim (fields repo) [
      | [] ↦ none
      | pin ∷ [] ↦ none
      | pin ∷ url ∷ parts ↦ some (drop 1 pin, url)
    ]
    else some ([], repo)

module _ {Index : Type 0} (lib : Library Index) where
  -- Some key verifies the digest. The key with the name that the signature tells is among them: that
  -- it is tried first changes nothing, since `verified` stays false.
  unfoldable pub some_key : Map Bytes → Bytes → Bytes → Bool
  some_key keys digest signature = any_of (λ k. lib.verifies digest signature k.1) keys

  -- The check of the signature; `keys` may be nil.
  unfoldable pub check_signature : Option (Map Bytes) → Bytes → Result (Unit {0})
  check_signature keys b = elim (lib.first_part b) [
    | none ↦ err no_signature
    | some s ↦
        if not (has_key_name s.file_name) then err no_key_name else elim (lib.hash_data s.rest) [
          | none ↦ err not_hashed
          | some digest ↦ elim keys [
            | none ↦ err no_keys
            | some m ↦ if some_key m digest s.signature then ok tt else err not_verified
          ]
        ]
  ]

  unfoldable pub parse_index : Bytes → Result (Option Index)
  parse_index b = elim (lib.index_from_archive b) [
    | none ↦ err bad_index
    | some index ↦ ok (some index)
  ]

  -- `getRepositoryIndex`: there is no index where there is no file.
  unfoldable pub get_repository_index :
      Bytes → Option (Map Bytes) → Bytes → IndexOpts → Result (Option Index)
  get_repository_index u keys arch opts = elim (lib.fetch u) [
    | unreachable ↦ err not_fetched
    | missing ↦ ok none
    | fetched b ↦
        if should_check u arch opts
        then elim (check_signature keys b) [ err e ↦ err e | ok x ↦ parse_index b ]
        else parse_index b
  ]

-- `GetRepositoryIndexes`: the pins and the addresses with their indexes. `get` is the method of
-- `globalIndexCache`, which gives the first answer of `getRepositoryIndex` for an address again.
unfoldable pub get_repository_indexes :
    {Index : Type 0}
    → (Bytes → Result (Option Index))
    → List Bytes
    → Bytes
    → Result (List (Bytes × Bytes × Index))
get_repository_indexes get [] arch = ok []
get_repository_indexes get (repo ∷ repos) arch =
    let rest = get_repository_indexes get repos arch in
    elim (parse_repo repo) [
      | none ↦ err bad_line
      | some (name, url) ↦ elim (get (index_url url arch)) [
        | err e ↦ err e
        | ok none ↦ rest
        | ok (some index) ↦ elim rest [
          | err e ↦ err e
          | ok indexes ↦ ok ((name, url ++ b'/' ∷ arch, index) ∷ indexes)
        ]
      ]
    ]
