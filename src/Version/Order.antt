-- ===== src/Version/Order.antt =====
-- pkg/apk/version.go: `CompareVersions` is a total order, and the dependency operators agree with it.
use Prim.Native.Nat.{suc}
use mathlib.Core.Bool.{not, ◌||◌}
use go_apk.Base.{ℕ, true, List, [], ◌∷◌, ◌≡◌, ◌≢◌, refl, arith, length, ◌↔◌}
use go_apk.Version.{
  Version, PreModifier, PostModifier, pre_value, post_value, Comparison, greater, equal, less,
  compare_field, compare_common, pre_rank, compare_suffixes, compare_versions, version_equal,
  version_greater, version_less, version_greater_equal, version_less_equal, satisfies, is_equal,
  is_less,
}

abbrev pub flip : Comparison → Comparison
flip greater = less
flip equal = equal
flip less = greater

-- `a` does not sort above `b`.
abbrev pub AtMost : Comparison → Type 0
AtMost c = c ≢ greater

module _ (a b : ℕ) where
  flip-compare_field :
      (r s : Comparison) → s ≡ flip r → compare_field b a s ≡ flip (compare_field a b r)
  unfolding compare_field
  flip-compare_field r s h = ground arith

  compare_field-equal : (r : Comparison) → compare_field a b r ≡ equal → (a ≡ b) × (r ≡ equal)
  unfolding compare_field
  compare_field-equal r h = ground arith

  compare_field-suc : (r : Comparison) → compare_field (suc a) (suc b) r ≡ compare_field a b r
  unfolding compare_field
  compare_field-suc r = ground arith

  compare_field_trans :
      (c : ℕ) {r s t : Comparison}
      → (AtMost r → AtMost s → AtMost t)
      → AtMost (compare_field a b r)
      → AtMost (compare_field b c s)
      → AtMost (compare_field a c t)
  unfolding compare_field
  compare_field_trans c h x y = ground arith

compare_field_longer : (n : ℕ) (r : Comparison) → compare_field (suc n) 0 r ≡ greater
unfolding compare_field
compare_field_longer n r = ground arith

compare_field_shorter : (n : ℕ) (r : Comparison) → AtMost (compare_field 0 (suc n) r)
unfolding compare_field
compare_field_shorter n r = ground arith

flip-compare_common :
    (as' bs : List ℕ) (r s : Comparison)
    → s ≡ flip r
    → compare_common bs as' s ≡ flip (compare_common as' bs r)
unfolding compare_common
flip-compare_common [] [] r s h = h
flip-compare_common [] (b ∷ bs) r s h = h
flip-compare_common (a ∷ as') [] r s h = h
flip-compare_common (a ∷ as') (b ∷ bs) r s h =
    flip-compare_field a b _ _ (flip-compare_common as' bs r s h)

-- Comparing two versions the other way round gives the opposite answer.
pub flip-compare_versions : (v w : Version) → compare_versions w v ≡ flip (compare_versions v w)
unfolding compare_versions compare_suffixes
flip-compare_versions v w = flip-compare_common v.numbers w.numbers _ _ (
    flip-compare_field _ _ _ _ (
      flip-compare_field _ _ _ _ (
        flip-compare_field _ _ _ _ (
          flip-compare_field _ _ _ _ (
            flip-compare_field _ _ _ _
              (flip-compare_field _ _ _ _ (flip-compare_field _ _ _ _ refl)))))))

-- The number lists and then their lengths: two lists that compare equal are equal.
compare_numbers-equal :
    (as' bs : List ℕ) (r : Comparison)
    → compare_common as' bs (compare_field (length as') (length bs) r) ≡ equal
    → (as' ≡ bs) × (r ≡ equal)
unfolding compare_common compare_field
compare_numbers-equal [] [] r h = (refl, h)
compare_numbers-equal [] (b ∷ bs) r h = absurd (ground arith)
compare_numbers-equal (a ∷ as') [] r h = absurd (ground arith)
compare_numbers-equal (a ∷ as') (b ∷ bs) r h = ground (
  arith,
  compare_field-equal a b _ h,
  compare_field-suc (length as') (length bs) r,
  compare_numbers-equal as' bs r,
)

compare_numbers_trans :
    (as' bs cs : List ℕ) {r s t : Comparison}
    → (AtMost r → AtMost s → AtMost t)
    → AtMost (compare_common as' bs (compare_field (length as') (length bs) r))
    → AtMost (compare_common bs cs (compare_field (length bs) (length cs) s))
    → AtMost (compare_common as' cs (compare_field (length as') (length cs) t))
unfolding compare_common
compare_numbers_trans (a ∷ as') (b ∷ bs) (c ∷ cs) {r} {s} {t} h x y =
    let x' = rw (compare_field-suc (length as') (length bs) r) at x in
    let y' = rw (compare_field-suc (length bs) (length cs) s) at y in
    rw (compare_field-suc (length as') (length cs) t)
      (compare_field_trans a b c (compare_numbers_trans as' bs cs h) x' y')
compare_numbers_trans [] [] cs h x y = compare_field_trans 0 0 (length cs) h x y
compare_numbers_trans [] (b ∷ bs) [] {s = s} h x y = absurd (y (compare_field_longer (length bs) s))
compare_numbers_trans [] (b ∷ bs) (c ∷ cs) {t = t} h x y = compare_field_shorter (length cs) t
compare_numbers_trans (a ∷ as') [] cs {r} h x y = absurd (x (compare_field_longer (length as') r))
compare_numbers_trans (a ∷ as') (b ∷ bs) [] {s = s} h x y =
    absurd (y (compare_field_longer (length bs) s))

pre_rank-injective : (m n : PreModifier) → pre_rank m ≡ pre_rank n → m ≡ n
unfolding pre_rank pre_value
pre_rank-injective m n h = ground arith

post_value-injective : (m n : PostModifier) → post_value m ≡ post_value n → m ≡ n
unfolding post_value
post_value-injective m n h = ground arith

compare_versions-equal : (v w : Version) → compare_versions v w ≡ equal → v ≡ w
unfolding compare_versions compare_suffixes
compare_versions-equal v w h =
    let (numbers, h1) = compare_numbers-equal v.numbers w.numbers _ h in
    let (letter, h2) = compare_field-equal v.letter w.letter _ h1 in
    let (pre_rank', h3) = compare_field-equal _ _ _ h2 in
    let (pre_number, h4) = compare_field-equal v.pre_suffix_number w.pre_suffix_number _ h3 in
    let (post_value', h5) = compare_field-equal _ _ _ h4 in
    let (post_number, h6) = compare_field-equal v.post_suffix_number w.post_suffix_number _ h5 in
    let (revision, _) = compare_field-equal v.revision w.revision _ h6 in
    let pre_suffix = pre_rank-injective v.pre_suffix w.pre_suffix pre_rank' in
    let post_suffix = post_value-injective v.post_suffix w.post_suffix post_value' in
    cc (numbers, letter, pre_suffix, pre_number, post_suffix, post_number, revision)

-- `does not sort above` is transitive.
pub compare_versions_trans :
    (u v w : Version)
    → AtMost (compare_versions u v)
    → AtMost (compare_versions v w)
    → AtMost (compare_versions u w)
unfolding compare_versions compare_suffixes
compare_versions_trans u v w = compare_numbers_trans u.numbers v.numbers w.numbers (
    compare_field_trans _ _ _ (
      compare_field_trans _ _ _ (
        compare_field_trans _ _ _ (
          compare_field_trans _ _ _
            (compare_field_trans _ _ _ (compare_field_trans _ _ _ (λ x y. y)))))))

-- Two versions compare equal exactly when they are the same version.
pub compare_versions-equal_iff : (v w : Version) → (compare_versions v w ≡ equal) ↔ (v ≡ w)
compare_versions-equal_iff v w = (
  compare_versions-equal v w,
  λ e. rw e (self (compare_versions w w) (flip-compare_versions w w)),
)
  where
    self : (c : Comparison) → c ≡ flip c → c ≡ equal
    self c h = ground arith

-- The operators `=`, `<`, `>`, `<=` and `>=` are those of one order: `=` holds of equal versions
-- alone, `<` and `>` mirror each other, and `<=` and `>=` are the negations of `>` and `<`.
pub satisfies_order :
    (v w : Version)
    → ((satisfies version_equal v w ≡ true) ↔ (v ≡ w))
      × (satisfies version_less v w ≡ satisfies version_greater w v)
      × (satisfies version_less_equal v w ≡ not (satisfies version_greater v w))
      × (satisfies version_greater_equal v w ≡ not (satisfies version_less v w))
unfolding satisfies
satisfies_order v w =
    let (to, from) = compare_versions-equal_iff v w in
    let mirror = flip-compare_versions v w in
    ((λ h. to (ground arith), λ e. rw (from e)), ground arith, ground arith, ground arith)

AtMost-of : (c : Comparison) → (is_less c || is_equal c) ≡ true → AtMost c
AtMost-of c h = ground arith

of_AtMost : (c : Comparison) → AtMost c → (is_less c || is_equal c) ≡ true
of_AtMost c h = ground arith

-- What satisfies an upper bound satisfies every bound above it.
pub satisfies_trans :
    (u v w : Version)
    → satisfies version_less_equal u v ≡ true
    → satisfies version_less_equal v w ≡ true
    → satisfies version_less_equal u w ≡ true
unfolding satisfies
satisfies_trans u v w h k =
    of_AtMost _ (compare_versions_trans u v w (AtMost-of _ h) (AtMost-of _ k))
