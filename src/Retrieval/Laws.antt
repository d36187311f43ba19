-- ===== src/Retrieval/Laws.antt =====
-- pkg/apk/index.go: an index that is accepted was signed, unless that was not asked for.
use go_apk.Base.{
  Bool, true, false, List, [], ◌∷◌, Option, some, ◌≡◌, ◌⊎◌, In, refl, inl, inr, arith, Option-cases,
  Bool-cases, any_of,
}
use go_apk.Base.Bytes.{Bytes, str_eq, str_eq_iff}
use go_apk.Base.Maps.{Map}
use go_apk.Retrieval.{
  IndexOpts, Fetched, unreachable, missing, fetched, Signed, Library, ok, index_url, should_check,
  has_key_name, some_key, check_signature, parse_index, get_repository_index,
}

any_of-In :
    {A : Type 0} (p : A → Bool) (xs : List A)
    → any_of p xs ≡ true
    → (x : A) × In x xs × (p x ≡ true)
any_of-In p [] h = absurd (cc h)
any_of-In p (x ∷ xs) h = elim (Bool-cases (p x)) [
  | inl e ↦ (x, inl refl, e)
  | inr e ↦ let (y, i, f) = any_of-In p xs (ground arith) in (y, inr i, f)
]

-- One of the keys verifies what follows the signature.
pub record IsSigned {Index : Type 0} (lib : Library Index) (keys : Option (Map Bytes)) (b : Bytes)
    : Type 0 where
  pub part : Signed
  pub first : lib.first_part b ≡ some part
  pub named : has_key_name part.file_name ≡ true
  pub digest : Bytes
  pub hashed : lib.hash_data part.rest ≡ some digest
  pub given : Map Bytes
  pub among : keys ≡ some given
  pub key : Bytes × Bytes
  pub is_given : In key given
  pub verified : lib.verifies digest part.signature key.1 ≡ true

-- The options ask for no signature of this index.
pub Waived : IndexOpts → Bytes → Bytes → Type 0
Waived opts u arch =
    (opts.ignore_signatures ≡ true)
    ⊎ ((repo : Bytes) × In repo opts.no_signature_indexes × (index_url repo arch ≡ u))

should_check-Waived :
    (u arch : Bytes) (opts : IndexOpts) → should_check u arch opts ≡ false → Waived opts u arch
unfolding should_check Waived
should_check-Waived u arch opts h = elim (Bool-cases opts.ignore_signatures) [
  | inl e ↦ inl e
  | inr e ↦
      let (repo, i, f) =
        any_of-In (λ ignored. str_eq (index_url ignored arch) u) opts.no_signature_indexes
          (ground arith) in
      inr (repo, i, ground (arith, str_eq_iff (index_url repo arch) u))
]

module _ {Index : Type 0} (lib : Library Index) where
  check_signature-IsSigned :
      (keys : Option (Map Bytes)) (b : Bytes)
      → check_signature lib keys b ≡ ok tt
      → IsSigned lib keys b
  unfolding check_signature some_key
  check_signature-IsSigned keys b h = elim (Option-cases (lib.first_part b)) [
    | inl e ↦ absurd (ground arith)
    | inr (s, e) ↦ elim (Bool-cases (has_key_name s.file_name)) [
      | inr n ↦ absurd (ground arith)
      | inl n ↦ elim (Option-cases (lib.hash_data s.rest)) [
        | inl f ↦ absurd (ground arith)
        | inr (digest, f) ↦ elim (Option-cases keys) [
          | inl k ↦ absurd (ground arith)
          | inr (m, k) ↦
              let (key, i, g) =
                any_of-In (λ x. lib.verifies digest s.signature x.1) m (ground arith) in
              record {
                part = s;
                first = e;
                named = n;
                digest = digest;
                hashed = f;
                given = m;
                among = k;
                key = key;
                is_given = i;
                verified = g;
              }
        ]
      ]
    ]
  ]

  -- An index that `getRepositoryIndex` returns was read from what is at the address, and one of the
  -- keys verifies its signature, unless the options ignore signatures, all of them or those of
  -- a repository with this address.
  pub get_repository_index-IsSigned :
      (u arch : Bytes) (keys : Option (Map Bytes)) (opts : IndexOpts) (index : Index)
      → get_repository_index lib u keys arch opts ≡ ok (some index)
      → (b : Bytes) × (lib.fetch u ≡ fetched b)
        × (lib.index_from_archive b ≡ some index)
        × (Waived opts u arch ⊎ IsSigned lib keys b)
  unfolding get_repository_index parse_index
  get_repository_index-IsSigned u arch keys opts index h = go (lib.fetch u) refl
    where
      parse_lem :
          (b : Bytes) → parse_index lib b ≡ ok (some index) → lib.index_from_archive b ≡ some index
      parse_lem b k = ground arith

      go :
          (f : Fetched)
          → lib.fetch u ≡ f
          → (b : Bytes) × (lib.fetch u ≡ fetched b)
            × (lib.index_from_archive b ≡ some index)
            × (Waived opts u arch ⊎ IsSigned lib keys b)
      go unreachable e = absurd (ground arith)
      go missing e = absurd (ground arith)
      go (fetched b) e = elim (Bool-cases (should_check u arch opts)) [
        | inr c ↦ (b, e, parse_lem b (ground arith), inl (should_check-Waived u arch opts c))
        | inl c ↦
            (b, e, parse_lem b (ground arith), inr (check_signature-IsSigned keys b (ground arith)))
      ]
