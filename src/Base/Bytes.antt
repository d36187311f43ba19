-- ===== src/Base/Bytes.antt =====
-- Go strings as lists of bytes: equality, order, `strings.Split`, `strings.Join`, prefixes, and the
-- longest prefix whose bytes pass a test.
use Prim.Native.Nat.{ℕ}
use Prim.Native.Char.{code}
use Prim.Native.String.{String}
use mathlib.Core.Path.{◌≡◌, refl}
use mathlib.Core.Logic.{◌↔◌, ◌≢◌, inl, inr}
use mathlib.Core.List.{List, [], ◌∷◌, ◌++◌, cons-ne-nil}
use mathlib.Core.Bool.{Bool, true, false, ◌&&◌, ◌||◌}
use native.Mathlib.Omega.{arith}
use go_apk.Base.Tests.{ltb, leb, ◌==◌, ==_iff, if◌then◌else◌, Bool-cases}
use go_apk.Base.Lists.{All}

abbrev pub Bytes : Type 0
Bytes = List ℕ

-- The bytes of an ASCII literal.
abbrev pub codes : String → Bytes
codes String.[] = []
codes (String.◌∷◌ c s) = code c ∷ codes s

-- `s == t` on strings.
unfoldable pub str_eq : Bytes → Bytes → Bool
str_eq [] [] = true
str_eq [] (c ∷ t) = false
str_eq (b ∷ s) [] = false
str_eq (b ∷ s) (c ∷ t) = b == c && str_eq s t

pub str_eq_iff : (s t : Bytes) → (str_eq s t ≡ true) ↔ (s ≡ t)
unfolding str_eq
str_eq_iff [] [] = ground arith
str_eq_iff [] (c ∷ t) = ground arith
str_eq_iff (b ∷ s) [] = ground arith
str_eq_iff (b ∷ s) (c ∷ t) = ground (arith, str_eq_iff s t)

pub str_eq_refl : (s : Bytes) → str_eq s s ≡ true
str_eq_refl s = (str_eq_iff s s).1 refl

-- `s < t` on strings, byte by byte.
unfoldable pub str_ltb : Bytes → Bytes → Bool
str_ltb [] [] = false
str_ltb [] (c ∷ t) = true
str_ltb (b ∷ s) [] = false
str_ltb (b ∷ s) (c ∷ t) = ltb b c || (b == c && str_ltb s t)

-- `strings.HasPrefix(s, p)`.
unfoldable pub has_prefix : Bytes → Bytes → Bool
has_prefix s [] = true
has_prefix [] (c ∷ p) = false
has_prefix (b ∷ s) (c ∷ p) = b == c && has_prefix s p

abbrev pub is_digit : ℕ → Bool
is_digit c = leb b'0' c && leb c b'9'

abbrev pub is_lower : ℕ → Bool
is_lower c = leb b'a' c && leb c b'z'

abbrev pub is_upper : ℕ → Bool
is_upper c = leb b'A' c && leb c b'Z'

-- The longest prefix whose bytes pass the test, and what follows it.
unfoldable pub span : (ℕ → Bool) → Bytes → Bytes × Bytes
span p [] = ([], [])
span p (c ∷ s) = let (a, r) = span p s in if p c then (c ∷ a, r) else ([], c ∷ s)

-- No byte at the front passes the test.
abbrev pub Stops : (ℕ → Bool) → Bytes → Type 0
Stops p [] = Unit
Stops p (c ∷ s) = p c ≡ false

pub span-append :
    (p : ℕ → Bool) (s r : Bytes) → All (λ c. p c ≡ true) s → Stops p r → span p (s ++ r) ≡ (s, r)
unfolding span
span-append p [] [] _ _ = refl
span-append p [] (c ∷ r) _ h = ground arith
span-append p (c ∷ s) r (hc, hs) h = ground (arith, span-append p s r hs h)

-- `strings.Split(s, sep)` at a separator of one byte: it always returns at least one part.
unfoldable pub split : Bytes → ℕ → List Bytes
split [] sep = [] ∷ []
split (c ∷ s) sep = elim (split s sep) [
  | [] ↦ []
  | part ∷ parts ↦ if c == sep then [] ∷ part ∷ parts else (c ∷ part) ∷ parts
]

-- `strings.Join(parts, sep)` at a separator of one byte.
unfoldable pub join : List Bytes → ℕ → Bytes
join [] sep = []
join (p ∷ []) sep = p
join (p ∷ q ∷ ps) sep = p ++ sep ∷ join (q ∷ ps) sep

abbrev pub Lacks : ℕ → Bytes → Type 0
Lacks b = All (λ c. c ≢ b)

pub split-cons : (s : Bytes) (sep : ℕ) → (p : Bytes) × (ps : List Bytes) × (split s sep ≡ p ∷ ps)
unfolding split
split-cons [] sep = ([], [], refl)
split-cons (c ∷ s) sep =
    let (p, ps, e) = split-cons s sep in
    elim (Bool-cases (c == sep)) [
      | inl h ↦ ([], p ∷ ps, rw (e, h))
      | inr h ↦ (c ∷ p, ps, rw (e, h))
    ]

-- Up to the first separator.
pub split_part : (p r : Bytes) (sep : ℕ) → Lacks sep p → split (p ++ sep ∷ r) sep ≡ p ∷ split r sep
unfolding split
split_part [] r sep _ = let (p, ps, e) = split-cons r sep in rw e (ground (arith, ==_iff sep sep))
split_part (c ∷ p) r sep (hc, h) = rw (split_part p r sep h) (ground arith)

pub split_last : (p : Bytes) (sep : ℕ) → Lacks sep p → split p sep ≡ p ∷ []
unfolding split
split_last [] sep _ = refl
split_last (c ∷ p) sep (hc, h) = ground (arith, split_last p sep h)

-- A join of parts without the separator is split into those parts.
pub split-join :
    (ps : List Bytes) (sep : ℕ) → ps ≢ [] → All (Lacks sep) ps → split (join ps sep) sep ≡ ps
unfolding join
split-join [] sep h _ = absurd (h refl)
split-join (p ∷ []) sep _ (hp, _) = split_last p sep hp
split-join (p ∷ q ∷ ps) sep _ (hp, hs) =
    rw (split_part p _ sep hp, split-join (q ∷ ps) sep (cons-ne-nil q ps) hs)
