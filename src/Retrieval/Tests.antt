-- ===== src/Retrieval/Tests.antt =====
-- Runs with a library in which a digest is signed by itself.
use go_apk.Base.{false, [], ◌∷◌, some, ◌≡◌, ◌⊎◌, refl}
use go_apk.Base.Bytes.{Bytes, codes, str_eq, has_prefix}
use go_apk.Base.Maps.{Map}
use go_apk.World.{fields}
use go_apk.Retrieval.{
  IndexOpts, fetched, Library, ok, err, not_verified, bad_line, index_url, should_check, has_suffix,
  has_key_name, some_key, check_signature, parse_index, get_repository_index, parse_repo,
  get_repository_indexes,
}
use go_apk.Retrieval.Laws.{IsSigned, Waived, get_repository_index-IsSigned}

-- What the runs compute with.
program : Unit {0}
unfolding str_eq has_prefix fields index_url should_check has_suffix has_key_name some_key
    check_signature parse_index get_repository_index parse_repo get_repository_indexes
program = tt

abbrev contents : Bytes
contents = codes "index"

abbrev lib : Library Bytes
lib = record {
  fetch = λ u. fetched contents;
  first_part = λ b.
      some (record { file_name = codes ".SIGN.RSA.a.rsa.pub"; signature = codes "s"; rest = b });
  hash_data = λ b. some (codes "k");
  verifies = λ digest signature key. str_eq digest key;
  index_from_archive = λ b. some b;
}

abbrev opts : IndexOpts
opts = record { ignore_signatures = false; no_signature_indexes = [] }

abbrev keys : Map Bytes
keys = (codes "b", codes "k") ∷ []

abbrev address : Bytes
address = codes "http://a/x/APKINDEX.tar.gz"

accepted_lem : get_repository_index lib address (some keys) (codes "x") opts ≡ ok (some contents)
unfolding program
accepted_lem = refl

get_repository_index-IsSigned_example :
    (b : Bytes) × (lib.fetch address ≡ fetched b)
    × (lib.index_from_archive b ≡ some contents)
    × (Waived opts address (codes "x") ⊎ IsSigned lib (some keys) b)
get_repository_index-IsSigned_example =
    get_repository_index-IsSigned lib address (codes "x") (some keys) opts contents accepted_lem

-- A key that does not fit is refused, and a pin is read from the line.
index_tests :
    (get_repository_index lib address (some ((codes "b", codes "x") ∷ [])) (codes "x") opts
      ≡ err not_verified)
    × (get_repository_indexes (λ u. ok (some u)) (codes "@p http://a" ∷ []) (codes "x")
        ≡ ok ((codes "p", codes "http://a/x", address) ∷ []))
    × (get_repository_indexes (λ u. ok (some u)) (codes "@p" ∷ []) (codes "x") ≡ err bad_line)
unfolding program
index_tests = (refl, refl, refl)
