-- ===== src/Version/Parse.antt =====
-- pkg/apk/version.go: `versionRegex` and `ParseVersion`.
-- The expression is anchored at both ends, and no text is matched by it in two ways, so a scan from
-- left to right finds its groups.
use Prim.Native.Nat.{ℕ}
use mathlib.Core.Bool.{◌&&◌, ◌||◌, not}
use go_apk.Base.{
  ◌≡◌, ◌⊎◌, inl, inr, refl, Bool, false, List, [], ◌∷◌, Option, none, some, ◌==◌, if◌then◌else◌,
  is_nil,
}
use go_apk.Base.Bytes.{Bytes, codes, str_eq, has_prefix, is_digit, is_lower, span, split}
use go_apk.Base.Decimal.{pos, negsuc, atoi}
use go_apk.Version.{
  Version, PreModifier, PostModifier, pre_none, alpha, beta, pre, rc, post_none, cvs, svn, git, hg,
  post_p,
}

-- The groups 1, 2, 4, 6, 7, 9, 10 and 13 of a match.
pub record Groups : Type 0 where
  pub first : Bytes
  pub rest : Bytes
  pub letter : Bytes
  pub pre_suffix : Bytes
  pub pre_number : Bytes
  pub post_suffix : Bytes
  pub post_number : Bytes
  pub revision : Bytes

abbrev pub starts_digit : Bytes → Bool
starts_digit [] = false
starts_digit (c ∷ s) = is_digit c

-- `((\.[0-9]+)*)`, behind a digit: a dot is taken only if a digit follows it.
unfoldable pub span_dotted : Bytes → Bytes × Bytes
span_dotted [] = ([], [])
span_dotted (c ∷ s) =
    let (a, r) = span_dotted s in
    if is_digit c || (c == b'.' && starts_digit s) then (c ∷ a, r) else ([], c ∷ s)

-- `([a-z]?)`.
unfoldable pub span_letter : Bytes → Bytes × Bytes
span_letter [] = ([], [])
span_letter (c ∷ s) = if is_lower c then (c ∷ [], s) else ([], c ∷ s)

abbrev pub drop_prefix : Bytes → Bytes → Bytes
drop_prefix [] s = s
drop_prefix (c ∷ p) [] = []
drop_prefix (c ∷ p) (d ∷ s) = drop_prefix p s

-- `((w1|w2|...)([0-9]*))?`: the word, its digits, and what follows.
unfoldable pub span_suffix : List Bytes → Bytes → Bytes × Bytes × Bytes
unfolding has_prefix span
span_suffix [] s = ([], [], s)
span_suffix (w ∷ ws) s =
    let other = span_suffix ws s in
    let (d, r) = span is_digit (drop_prefix w s) in if has_prefix s w then (w, d, r) else other

abbrev pub pre_words : List Bytes
pre_words = codes "_alpha" ∷ codes "_beta" ∷ codes "_pre" ∷ codes "_rc" ∷ []

abbrev pub post_words : List Bytes
post_words = codes "_cvs" ∷ codes "_svn" ∷ codes "_git" ∷ codes "_hg" ∷ codes "_p" ∷ []

-- `((-r)([0-9]+))?$`: the digits, if the whole text is one of the two.
unfoldable pub match_revision : Bytes → Option Bytes
unfolding has_prefix span
match_revision [] = some []
match_revision (c ∷ s) =
    let (d, r) = span is_digit (drop_prefix (codes "-r") (c ∷ s)) in
    if has_prefix (c ∷ s) (codes "-r") && not (is_nil d) && is_nil r then some d else none

-- `versionRegex.FindAllStringSubmatch`.
unfoldable pub match_version : Bytes → Option Groups
unfolding span span_dotted span_letter span_suffix match_revision
match_version version =
    let (first, s1) = span is_digit version in
    let (rest, s2) = span_dotted s1 in
    let (letter, s3) = span_letter s2 in
    let (pre_suffix, pre_number, s4) = span_suffix pre_words s3 in
    let (post_suffix, post_number, s5) = span_suffix post_words s4 in
    if is_nil first then none else elim (match_revision s5) [
      | none ↦ none
      | some revision ↦ some (record {
        first = first;
        rest = rest;
        letter = letter;
        pre_suffix = pre_suffix;
        pre_number = pre_number;
        post_suffix = post_suffix;
        post_number = post_number;
        revision = revision;
      })
    ]

pub data Error : Type 0 where
  no_match bad_number bad_suffix : Error

pub data Result {ℓ} (A : Type ℓ) : Type ℓ where
  ok : A → Result A
  err : Error → Result A

pub Result-cases {ℓ} :
    {A : Type ℓ} (r : Result A) → ((a : A) × (r ≡ ok a)) ⊎ ((e : Error) × (r ≡ err e))
Result-cases (ok a) = inl (a, refl)
Result-cases (err e) = inr (e, refl)

infixl 5 ◌>>=◌
abbrev pub ◌>>=◌ {ℓ κ} : {A : Type ℓ} {B : Type κ} → Result A → (A → Result B) → Result B
ok a >>= f = f a
err e >>= f = err e

-- `strconv.Atoi` of a group of digits.
unfoldable pub number : Bytes → Result ℕ
number s = elim (atoi s) [
  | some (pos n) ↦ ok n
  | some (negsuc n) ↦ err bad_number
  | none ↦ err bad_number
]

-- The number of a group that may be empty.
unfoldable pub number_or_zero : Bytes → Result ℕ
unfolding number
number_or_zero [] = ok 0
number_or_zero (c ∷ s) = number (c ∷ s)

-- The loop over `strings.Split(actuals[2], ".")`.
unfoldable pub numbers_of : List Bytes → Result (List ℕ)
unfolding number
numbers_of [] = ok []
numbers_of ([] ∷ parts) = numbers_of parts
numbers_of ((c ∷ s) ∷ parts) = do n ← number (c ∷ s); ns ← numbers_of parts; ok (n ∷ ns)

unfoldable pub pre_modifier : Bytes → Result PreModifier
unfolding str_eq
pre_modifier s =
    if str_eq s (codes "_alpha")
    then ok alpha
    else if str_eq s (codes "_beta")
    then ok beta
    else if str_eq s (codes "_pre")
    then ok pre
    else if str_eq s (codes "_rc")
    then ok rc
    else if str_eq s []
    then ok pre_none
    else err bad_suffix

unfoldable pub post_modifier : Bytes → Result PostModifier
unfolding str_eq
post_modifier s =
    if str_eq s (codes "_cvs")
    then ok cvs
    else if str_eq s (codes "_svn")
    then ok svn
    else if str_eq s (codes "_git")
    then ok git
    else if str_eq s (codes "_hg")
    then ok hg
    else if str_eq s (codes "_p")
    then ok post_p
    else if str_eq s []
    then ok post_none
    else err bad_suffix

abbrev pub letter_of : Bytes → ℕ
letter_of [] = 0
letter_of (c ∷ s) = c

-- `ParseVersion` behind the match.
unfoldable pub version_of : Groups → Result Version
unfolding number numbers_of pre_modifier post_modifier number_or_zero split
version_of g = do
  num ← number g.first
  nums ← numbers_of (split g.rest b'.')
  pre' ← pre_modifier g.pre_suffix
  pre_number ← number_or_zero g.pre_number
  post ← post_modifier g.post_suffix
  post_number ← number_or_zero g.post_number
  revision ← number_or_zero g.revision
  ok (record {
    numbers = num ∷ nums;
    letter = letter_of g.letter;
    pre_suffix = pre';
    pre_suffix_number = pre_number;
    post_suffix = post;
    post_suffix_number = post_number;
    revision = revision;
  })

unfoldable pub parse_version : Bytes → Result Version
unfolding match_version version_of
parse_version version = elim (match_version version) [ none ↦ err no_match | some g ↦ version_of g ]
