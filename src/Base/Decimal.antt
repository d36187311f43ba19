-- ===== src/Base/Decimal.antt =====
-- `strconv.ParseUint`, `strconv.ParseInt`, `strconv.Atoi` and the verb `%d`, on the bytes of a string.
use Prim.Native.Nat.{zero, suc, ◌+◌, ◌-◌, ◌*◌, ◌/◌, ◌%◌, ◌^◌, ◌≤◌, ◌<◌}
use mathlib.Core.List.{concat-ne-nil}
use mathlib.Core.Bool.{◌&&◌}
use go_apk.Base.Names.{
  ℕ, Bool, true, [], ◌∷◌, ◌++◌, Option, none, some, ◌≡◌, ◌≢◌, refl, arith, false,
}
use go_apk.Base.Tests.{ltb, leb, ◌==◌, if◌then◌else◌}
use go_apk.Base.Lists.{all_of, All, All-append, All-imp}
use go_apk.Base.Bytes.{Bytes, codes, is_digit, Lacks}

-- Go's `int` and `int64`: `negsuc n` is -(n + 1).
pub data ℤ : Type 0 where
  pos : ℕ → ℤ
  negsuc : ℕ → ℤ

abbrev pub neg : ℕ → ℤ
neg zero = pos 0
neg (suc n) = negsuc n

-- The digits of a number, at the given fuel, and `%d` of an unsigned number.
unfoldable pub digits : ℕ → ℕ → Bytes
digits zero n = []
digits (suc fuel) n =
    let rest = digits fuel (n / 10) in
    if ltb n 10 then (b'0' + n) ∷ [] else rest ++ (b'0' + n % 10) ∷ []

unfoldable pub format : ℕ → Bytes
unfolding digits
format n = digits (suc n) n

unfoldable pub format_int : ℤ → Bytes
unfolding format
format_int (pos n) = format n
format_int (negsuc n) = b'-' ∷ format (suc n)

-- The number that digits in a base spell behind `acc`, with no bound.
unfoldable pub value : ℕ → ℕ → Bytes → ℕ
value base acc [] = acc
value base acc (c ∷ s) = value base (acc * base + (c - b'0')) s

abbrev pub is_digit_of : ℕ → ℕ → Bool
is_digit_of base c = leb b'0' c && ltb c (b'0' + base)

-- The unsigned number that a text spells in a base up to ten, with no bound.
unfoldable pub numeral : ℕ → Bytes → Option ℕ
unfolding value
numeral base [] = none
numeral base (c ∷ s) =
    if all_of (is_digit_of base) (c ∷ s) then some (value base 0 (c ∷ s)) else none

abbrev pub max_u64 : ℕ
max_u64 = 2 ^ 64 - 1

abbrev pub max_i64 : ℕ
max_i64 = 2 ^ 63 - 1

abbrev pub at_most : ℕ → ℕ → Option ℕ
at_most bound n = if leb n bound then some n else none

-- `strconv.ParseUint(s, 10, 64)`.
unfoldable pub parse_uint : Bytes → Option ℕ
parse_uint s = elim (numeral 10 s) [ none ↦ none | some n ↦ at_most max_u64 n ]

abbrev pub signed : Option ℕ → Option ℕ → Option ℤ
signed limit none = none
signed none (some n) = if leb n max_i64 then some (pos n) else none
signed (some _) (some n) = if leb n (2 ^ 63) then some (neg n) else none

-- `strconv.ParseInt(s, base, 64)`; at base ten it is `strconv.Atoi`.
unfoldable pub parse_int : ℕ → Bytes → Option ℤ
parse_int base [] = none
parse_int base (c ∷ s) =
    if c == b'-'
    then signed (some 0) (numeral base s)
    else if c == b'+'
    then signed none (numeral base s)
    else signed none (numeral base (c ∷ s))

abbrev pub atoi : Bytes → Option ℤ
atoi = parse_int 10

pub value-append :
    (base acc : ℕ) (s t : Bytes) → value base acc (s ++ t) ≡ value base (value base acc s) t
unfolding value
value-append base acc [] t = refl
value-append base acc (c ∷ s) t = value-append base (acc * base + (c - b'0')) s t

pub digits-ne-nil : (f n : ℕ) → digits (suc f) n ≢ []
unfolding digits
digits-ne-nil f n = ground (arith, concat-ne-nil (b'0' + n % 10) (digits f (n / 10)))

abbrev pub IsDigit : ℕ → Type 0
IsDigit c = is_digit c ≡ true

pub digits-All : (f n : ℕ) → All IsDigit (digits f n)
unfolding digits
digits-All zero n = tt
digits-All (suc f) n =
    let ih =
      All-append IsDigit (digits f (n / 10)) ((b'0' + n % 10) ∷ []) (digits-All f (n / 10))
        (ground arith, tt) in
    ground (arith, ih)

pub value-digits : (f n : ℕ) → n < f → value 10 0 (digits f n) ≡ n
unfolding value digits
value-digits zero n h = elim h [ ]
value-digits (suc f) n h =
    ground
      (arith, value-append 10 0 (digits f (n / 10)) ((b'0' + n % 10) ∷ []), value-digits f (n / 10))

pub format-All : (n : ℕ) → All IsDigit (format n)
unfolding format
format-All n = digits-All (suc n) n

pub format-ne-nil : (n : ℕ) → format n ≢ []
unfolding format
format-ne-nil n = digits-ne-nil n n

all_of-digits : (s : Bytes) → All IsDigit s → all_of (is_digit_of 10) s ≡ true
all_of-digits [] _ = refl
all_of-digits (c ∷ s) (hc, hs) = ground (arith, all_of-digits s hs)

pub numeral-digits : (s : Bytes) → s ≢ [] → All IsDigit s → numeral 10 s ≡ some (value 10 0 s)
unfolding numeral
numeral-digits [] h _ = absurd (h refl)
numeral-digits (c ∷ s) _ h = rw (all_of-digits (c ∷ s) h)

pub numeral-format : (n : ℕ) → numeral 10 (format n) ≡ some n
unfolding format
numeral-format n = rw (
  numeral-digits (format n) (format-ne-nil n) (format-All n),
  value-digits (suc n) n (omega arith),
)

-- Every unsigned 64-bit number is read back from its decimal print.
pub parse_uint-format : (n : ℕ) → n ≤ max_u64 → parse_uint (format n) ≡ some n
unfolding parse_uint
parse_uint-format n h = rw (numeral-format n, parse_uint) (ground arith)

atoi_digits : (s : Bytes) → All IsDigit s → atoi s ≡ signed none (numeral 10 s)
unfolding parse_int numeral
atoi_digits [] _ = refl
atoi_digits (c ∷ s) (hc, _) = ground arith

-- Every non-negative `int` is read back from its decimal print.
pub atoi-format : (n : ℕ) → n ≤ max_i64 → atoi (format n) ≡ some (pos n)
atoi-format n h = rw (atoi_digits (format n) (format-All n), numeral-format n) (ground arith)

-- A text of digits alone is read as a number that fits, or refused.
pub atoi_sound :
    (s : Bytes) {z : ℤ}
    → All IsDigit s
    → atoi s ≡ some z
    → (n : ℕ) × (z ≡ pos n) × (n ≤ max_i64) × (numeral 10 s ≡ some n)
atoi_sound s {z} hs h = go (numeral 10 s) refl
  where
    go :
        (o : Option ℕ)
        → numeral 10 s ≡ o
        → (n : ℕ) × (z ≡ pos n) × (n ≤ max_i64) × (numeral 10 s ≡ some n)
    go none e = absurd (ground (arith, atoi_digits s hs))
    go (some n) e = (n, ground (arith, atoi_digits s hs), ground (arith, atoi_digits s hs), e)

pub format-Lacks : (c n : ℕ) → is_digit c ≡ false → Lacks c (format n)
format-Lacks c n h = All-imp (format n) (λ d e. ground arith) (format-All n)

parse_tests :
    (atoi (codes "-12") ≡ some (negsuc 11))
    × (atoi (codes "+7") ≡ some (pos 7))
    × (atoi (codes "9223372036854775808") ≡ none)
    × (parse_int 8 (codes "0755") ≡ some (pos 493))
    × (format 1203 ≡ codes "1203")
unfolding parse_int numeral format
parse_tests = (refl, refl, refl, refl, refl)
