-- ===== src/Base/Base64.antt =====
-- `base64.StdEncoding`: `EncodeToString` and `DecodeString`.
use Prim.Native.Nat.{◌+◌, ◌-◌, ◌*◌, ◌/◌, ◌%◌, ◌<◌}
use mathlib.Core.Bool.{◌&&◌, ◌||◌, not}
use go_apk.Base.Names.{ℕ, Bool, true, false, [], ◌∷◌, ◌++◌, Option, none, some, ◌≡◌, refl, arith}
use go_apk.Base.Tests.{ltb, leb, ◌==◌, if◌then◌else◌}
use go_apk.Base.Lists.{is_nil, keep, All}
use go_apk.Base.Bytes.{Bytes, codes}

-- The character of a number below 64, and back.
unfoldable pub sextet_char : ℕ → ℕ
sextet_char n =
    if ltb n 26
    then b'A' + n
    else if ltb n 52
    then b'a' + (n - 26)
    else if ltb n 62
    then b'0' + (n - 52)
    else if n == 62
    then b'+'
    else b'/'

unfoldable pub sextet : ℕ → Option ℕ
sextet c =
    if leb b'A' c && leb c b'Z'
    then some (c - b'A')
    else if leb b'a' c && leb c b'z'
    then some (c - b'a' + 26)
    else if leb b'0' c && leb c b'9'
    then some (c - b'0' + 52)
    else if c == b'+'
    then some 62
    else if c == b'/'
    then some 63
    else none

unfoldable pub encode_base64 : Bytes → Bytes
encode_base64 [] = []
encode_base64 (a ∷ []) = sextet_char (a / 4) ∷ sextet_char (a % 4 * 16) ∷ b'=' ∷ b'=' ∷ []
encode_base64 (a ∷ b ∷ []) =
    sextet_char (a / 4) ∷ sextet_char (a % 4 * 16 + b / 16) ∷ sextet_char (b % 16 * 4) ∷ b'=' ∷ []
encode_base64 (a ∷ b ∷ c ∷ s) =
    sextet_char (a / 4)
    ∷ sextet_char (a % 4 * 16 + b / 16)
    ∷ sextet_char (b % 16 * 4 + c / 64)
    ∷ sextet_char (c % 64)
    ∷ encode_base64 s

-- A quantum of four characters, of which the last is followed by nothing where it is padding.
unfoldable pub decode_quantum : ℕ → ℕ → ℕ → ℕ → Bool → Option Bytes
decode_quantum a b c d at_end = elim (sextet a) [
  | none ↦ none
  | some w ↦ elim (sextet b) [
    | none ↦ none
    | some x ↦
        if c == b'='
        then (if d == b'=' && at_end then some ((w * 4 + x / 16) ∷ []) else none)
        else elim (sextet c) [
          | none ↦ none
          | some y ↦
              if d == b'='
              then (if at_end then some ((w * 4 + x / 16) ∷ (x % 16 * 16 + y / 4) ∷ []) else none)
              else elim (sextet d) [
                | none ↦ none
                | some z ↦ some ((w * 4 + x / 16) ∷ (x % 16 * 16 + y / 4) ∷ (y % 4 * 64 + z) ∷ [])
              ]
        ]
  ]
]

abbrev append_some : Option Bytes → Option Bytes → Option Bytes
append_some none o = none
append_some (some s) none = none
append_some (some s) (some t) = some (s ++ t)

unfoldable pub decode_quanta : Bytes → Option Bytes
unfolding decode_quantum
decode_quanta [] = some []
decode_quanta (a ∷ []) = none
decode_quanta (a ∷ b ∷ []) = none
decode_quanta (a ∷ b ∷ c ∷ []) = none
decode_quanta (a ∷ b ∷ c ∷ d ∷ s) =
    append_some (decode_quantum a b c d (is_nil s)) (decode_quanta s)

-- Newlines and carriage returns do not count.
abbrev pub is_break : ℕ → Bool
is_break c = c == 10 || c == 13

unfoldable pub decode_base64 : Bytes → Option Bytes
decode_base64 s = decode_quanta (keep (λ c. not (is_break c)) s)

sextet-sextet_char : (n : ℕ) → n < 64 → sextet (sextet_char n) ≡ some n
unfolding sextet sextet_char
sextet-sextet_char n h = ground arith

sextet_char-no_pad : (n : ℕ) → n < 64 → (sextet_char n == b'=') ≡ false
unfolding sextet_char
sextet_char-no_pad n h = ground arith

sextet_char-no_break : (n : ℕ) → n < 64 → is_break (sextet_char n) ≡ false
unfolding sextet_char
sextet_char-no_break n h = ground arith

abbrev pub IsByte : ℕ → Type 0
IsByte c = c < 256

quantum3 :
    (a b c : ℕ) (e : Bool)
    → IsByte a
    → IsByte b
    → IsByte c
    → decode_quantum
        (sextet_char (a / 4))
        (sextet_char (a % 4 * 16 + b / 16))
        (sextet_char (b % 16 * 4 + c / 64))
        (sextet_char (c % 64))
        e
      ≡ some (a ∷ b ∷ c ∷ [])
unfolding decode_quantum
quantum3 a b c e ha hb hc = ground (
  arith,
  sextet-sextet_char (a / 4) (omega arith),
  sextet-sextet_char (a % 4 * 16 + b / 16) (omega arith),
  sextet_char-no_pad (b % 16 * 4 + c / 64) (omega arith),
  sextet-sextet_char (b % 16 * 4 + c / 64) (omega arith),
  sextet_char-no_pad (c % 64) (omega arith),
  sextet-sextet_char (c % 64) (omega arith),
)

quantum2 :
    (a b : ℕ)
    → IsByte a
    → IsByte b
    → decode_quantum
        (sextet_char (a / 4))
        (sextet_char (a % 4 * 16 + b / 16))
        (sextet_char (b % 16 * 4))
        b'='
        true
      ≡ some (a ∷ b ∷ [])
unfolding decode_quantum
quantum2 a b ha hb = ground (
  arith,
  sextet-sextet_char (a / 4) (omega arith),
  sextet-sextet_char (a % 4 * 16 + b / 16) (omega arith),
  sextet_char-no_pad (b % 16 * 4) (omega arith),
  sextet-sextet_char (b % 16 * 4) (omega arith),
)

quantum1 :
    (a : ℕ)
    → IsByte a
    → decode_quantum (sextet_char (a / 4)) (sextet_char (a % 4 * 16)) b'=' b'=' true ≡ some (a ∷ [])
unfolding decode_quantum
quantum1 a ha =
    ground (
      arith,
      sextet-sextet_char (a / 4) (omega arith),
      sextet-sextet_char (a % 4 * 16) (omega arith),
    )

decode_quanta-encode_base64 : (s : Bytes) → All IsByte s → decode_quanta (encode_base64 s) ≡ some s
unfolding decode_quanta encode_base64
decode_quanta-encode_base64 [] _ = refl
decode_quanta-encode_base64 (a ∷ []) (ha, _) = ground (arith, quantum1 a ha)
decode_quanta-encode_base64 (a ∷ b ∷ []) (ha, (hb, _)) = ground (arith, quantum2 a b ha hb)
decode_quanta-encode_base64 (a ∷ b ∷ c ∷ s) (ha, (hb, (hc, h))) =
    ground
      (arith, quantum3 a b c (is_nil (encode_base64 s)) ha hb hc, decode_quanta-encode_base64 s h)

-- A character of the encoding is no line break.
abbrev pub NoBreak : ℕ → Type 0
NoBreak c = is_break c ≡ false

pub encode_base64-All : (s : Bytes) → All IsByte s → All NoBreak (encode_base64 s)
unfolding encode_base64
encode_base64-All [] _ = tt
encode_base64-All (a ∷ []) (ha, _) = (
  sextet_char-no_break _ (omega arith),
  (sextet_char-no_break _ (omega arith), (refl, (refl, tt))),
)
encode_base64-All (a ∷ b ∷ []) (ha, (hb, _)) = (
  sextet_char-no_break _ (omega arith),
  (sextet_char-no_break _ (omega arith), (sextet_char-no_break _ (omega arith), (refl, tt))),
)
encode_base64-All (a ∷ b ∷ c ∷ s) (ha, (hb, (hc, h))) = (
  sextet_char-no_break _ (omega arith),
  (
    sextet_char-no_break _ (omega arith),
    (
      sextet_char-no_break _ (omega arith),
      (sextet_char-no_break _ (omega arith), encode_base64-All s h),
    ),
  ),
)

keep_unbroken : (s : Bytes) → All NoBreak s → keep (λ c. not (is_break c)) s ≡ s
keep_unbroken [] _ = refl
keep_unbroken (c ∷ s) (h, hs) = rw (h, keep_unbroken s hs) refl

-- What is encoded is decoded again.
pub decode_base64-encode_base64 :
    (s : Bytes) → All IsByte s → decode_base64 (encode_base64 s) ≡ some s
unfolding decode_base64
decode_base64-encode_base64 s h =
    rw (keep_unbroken (encode_base64 s) (encode_base64-All s h)) (decode_quanta-encode_base64 s h)

decode_tests :
    (decode_base64 (codes "aGVsbG8=") ≡ some (codes "hello"))
    × (encode_base64 (codes "hello") ≡ codes "aGVsbG8=")
unfolding decode_base64 decode_quanta decode_quantum sextet encode_base64 sextet_char
decode_tests = (refl, refl)
