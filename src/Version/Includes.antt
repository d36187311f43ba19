-- ===== src/Version/Includes.antt =====
-- pkg/apk/version.go: what `includesVersion` decides.
use mathlib.Core.Bool.{not, ◌&&◌}
use mathlib.Core.List.{append-nil, cons-ne-nil}
use go_apk.Base.{
  ℕ, Bool, true, false, List, [], ◌∷◌, ◌++◌, ◌≡◌, ◌≢◌, refl, ◌⊎◌, inl, inr, ◌↔◌, ap, arith, ltb,
  length, length-append, if◌then◌else◌,
}
use go_apk.Version.{
  Version, pre_none, post_none, pre_value, post_value, meets, starts_with, includes_version,
}

-- A field of the required version is unset, or the actual version agrees with it.
record Agrees (actual required : Version) : Type 0 where
  letter : (required.letter ≡ 0) ⊎ (actual.letter ≡ required.letter)
  pre_suffix : (required.pre_suffix ≡ pre_none) ⊎ (actual.pre_suffix ≡ required.pre_suffix)
  pre_number :
      (required.pre_suffix_number ≡ 0) ⊎ (actual.pre_suffix_number ≡ required.pre_suffix_number)
  post_suffix : (required.post_suffix ≡ post_none) ⊎ (actual.post_suffix ≡ required.post_suffix)
  post_number :
      (required.post_suffix_number ≡ 0) ⊎ (actual.post_suffix_number ≡ required.post_suffix_number)
  revision : (required.revision ≡ 0) ⊎ (actual.revision ≡ required.revision)

-- The required numbers begin the actual ones; if none follow, the other fields agree.
pub Includes : Version → Version → Type 0
Includes actual required =
    (more : List ℕ) × (actual.numbers ≡ required.numbers ++ more)
    × ((more ≢ []) ⊎ Agrees actual required)

starts_with-append : (xs ys : List ℕ) → starts_with (xs ++ ys) xs ≡ true
unfolding starts_with
starts_with-append [] ys = refl
starts_with-append (x ∷ xs) ys = ground (arith, starts_with-append xs ys)

append_of_starts_with :
    (as' rs : List ℕ) → starts_with as' rs ≡ true → (more : List ℕ) × (as' ≡ rs ++ more)
unfolding starts_with
append_of_starts_with as' [] h = (as', refl)
append_of_starts_with [] (r ∷ rs) h = absurd (ground arith)
append_of_starts_with (a ∷ as') (r ∷ rs) h =
    let (more, e) = append_of_starts_with as' rs (ground arith) in (more, ground arith)

module _ (a r : Version) where
  -- The tests of the last six fields.
  tests : Bool
  tests =
      meets a.letter r.letter
      && meets (pre_value a.pre_suffix) (pre_value r.pre_suffix)
      && meets a.pre_suffix_number r.pre_suffix_number
      && meets (post_value a.post_suffix) (post_value r.post_suffix)
      && meets a.post_suffix_number r.post_suffix_number
      && meets a.revision r.revision

  pre_meets :
      meets (pre_value a.pre_suffix) (pre_value r.pre_suffix) ≡ true
      → (r.pre_suffix ≡ pre_none) ⊎ (a.pre_suffix ≡ r.pre_suffix)
  unfolding pre_value
  pre_meets h = ground arith

  meets_pre :
      (r.pre_suffix ≡ pre_none) ⊎ (a.pre_suffix ≡ r.pre_suffix)
      → meets (pre_value a.pre_suffix) (pre_value r.pre_suffix) ≡ true
  unfolding pre_value
  meets_pre h = ground arith

  post_meets :
      meets (post_value a.post_suffix) (post_value r.post_suffix) ≡ true
      → (r.post_suffix ≡ post_none) ⊎ (a.post_suffix ≡ r.post_suffix)
  unfolding post_value
  post_meets h = ground arith

  meets_post :
      (r.post_suffix ≡ post_none) ⊎ (a.post_suffix ≡ r.post_suffix)
      → meets (post_value a.post_suffix) (post_value r.post_suffix) ≡ true
  unfolding post_value
  meets_post h = ground arith

  Agrees-of_tests : tests ≡ true → Agrees a r
  unfolding tests
  Agrees-of_tests h = record {
    letter = ground arith;
    pre_suffix = pre_meets (ground arith);
    pre_number = ground arith;
    post_suffix = post_meets (ground arith);
    post_number = ground arith;
    revision = ground arith;
  }

  tests_of_Agrees : Agrees a r → tests ≡ true
  unfolding tests
  tests_of_Agrees g = ground (arith, meets_pre g.pre_suffix, meets_post g.post_suffix)

  steps : Bool
  steps =
      if ltb (length a.numbers) (length r.numbers)
      then false
      else if not (starts_with a.numbers r.numbers)
      then false
      else if ltb (length r.numbers) (length a.numbers)
      then true
      else tests

  includes_version-steps : includes_version a r ≡ steps
  unfolding includes_version steps tests
  includes_version-steps = refl

  starts_of_steps : steps ≡ true → starts_with a.numbers r.numbers ≡ true
  unfolding steps
  starts_of_steps h = ground arith

  Includes_of_more :
      (more : List ℕ) → a.numbers ≡ r.numbers ++ more → steps ≡ true → (more ≢ []) ⊎ Agrees a r
  unfolding steps
  Includes_of_more [] e h =
      let same : length a.numbers ≡ length r.numbers = rw (e, append-nil) in
      inr (Agrees-of_tests (ground arith))
  Includes_of_more (x ∷ more) e h = inl (cons-ne-nil x more)

  steps_of_Includes :
      (more : List ℕ) → a.numbers ≡ r.numbers ++ more → (more ≢ []) ⊎ Agrees a r → steps ≡ true
  unfolding steps
  steps_of_Includes more e (inr g) = ground (
    arith,
    tests_of_Agrees g,
    ap length e,
    length-append r.numbers more,
    ap (λ (l : List ℕ). starts_with l r.numbers) e,
    starts_with-append r.numbers more,
  )
  steps_of_Includes [] e (inl h) = absurd (h refl)
  steps_of_Includes (x ∷ more) e (inl h) = ground (
    arith,
    ap length e,
    length-append r.numbers (x ∷ more),
    ap (λ (l : List ℕ). starts_with l r.numbers) e,
    starts_with-append r.numbers (x ∷ more),
  )

-- `includesVersion` holds exactly when the required numbers begin the actual ones and, if no number
-- follows, each other field that the required version sets has the same value in the actual one.
pub includes_version_iff :
    (actual required : Version)
    → (includes_version actual required ≡ true) ↔ Includes actual required
unfolding Includes
includes_version_iff a r = (
  λ h.
      let h' = rw (includes_version-steps a r) at h in
      let (more, e) = append_of_starts_with a.numbers r.numbers (starts_of_steps a r h') in
      (more, e, Includes_of_more a r more e h'),
  λ (more, e, g). rw (includes_version-steps a r) (steps_of_Includes a r more e g),
)
