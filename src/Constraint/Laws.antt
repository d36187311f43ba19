-- ===== src/Constraint/Laws.antt =====
-- pkg/apk/version.go: what `resolvePackageNameVersionPin` reads from a constraint.
use mathlib.Core.List.{append-nil, cons-ne-nil}
use mathlib.Core.Path.{ap, ap₂}
use go_apk.Base.{ℕ, Bool, true, false, [], ◌∷◌, ◌++◌, some, ◌≡◌, ◌≢◌, refl, arith, ◌∙◌, All}
use go_apk.Base.Bytes.{Bytes, codes, span-append, Stops, str_eq}
use go_apk.Version.{
  Dependency, version_any, version_equal, version_greater, version_less, version_greater_equal,
  version_less_equal, version_tilde,
}
use go_apk.Constraint.{
  Constraint, Groups, is_operator, is_not_at, is_name, is_alnum, match_pin, match_operator,
  match_name, dependency, parse_constraint,
}

Dependency-discrete : Discrete Dependency
Dependency-discrete = hlevel

-- The text of an operator.
abbrev pub operator : Dependency → Bytes
operator version_any = []
operator version_equal = codes "="
operator version_greater = codes ">"
operator version_less = codes "<"
operator version_greater_equal = codes ">="
operator version_less_equal = codes "<="
operator version_tilde = codes "~"

-- `@pin`, or nothing.
abbrev pub pin_text : Bytes → Bytes
pin_text [] = []
pin_text (c ∷ s) = b'@' ∷ c ∷ s

abbrev pub Holds : (ℕ → Bool) → Bytes → Type 0
Holds p = All (λ c. p c ≡ true)

-- The texts that a constraint with an operator can be made of: the version begins with no operator.
pub record IsPlain (c : Constraint) : Type 0 where
  pub named : c.name ≢ []
  pub name : Holds is_name c.name
  pub versioned : (c.dep ≡ version_any → c.version ≡ []) × (c.dep ≢ version_any → c.version ≢ [])
  pub version : Holds is_not_at c.version
  pub version_start : Stops is_operator c.version
  pub pin : Holds is_alnum c.pin

-- The text of a constraint: its name, its operator with its version, and its pin.
abbrev pub constraint_text : Constraint → Bytes
constraint_text c = c.name ++ (operator c.dep ++ (c.version ++ pin_text c.pin))

match_pin-pin_text : (pin : Bytes) → Holds is_alnum pin → match_pin (pin_text pin) ≡ some pin
unfolding match_pin
match_pin-pin_text [] _ = refl
match_pin-pin_text (c ∷ pin) h =
    let e = span-append is_alnum (c ∷ pin) [] h tt in ground (arith, e, append-nil (c ∷ pin))

Stops-pin_text : (p : ℕ → Bool) (pin : Bytes) → p b'@' ≡ false → Stops p (pin_text pin)
Stops-pin_text p [] _ = tt
Stops-pin_text p (c ∷ pin) h = h

-- A name and a pin, with no operator between them.
match_name-no_operator :
    (name pin : Bytes)
    → name ≢ []
    → Holds is_name name
    → Holds is_alnum pin
    → match_name (name ++ pin_text pin)
      ≡ some (record { name = name; matcher = []; version = []; pin = pin })
unfolding match_name
match_name-no_operator [] pin h _ _ = absurd (h refl)
match_name-no_operator (c ∷ name) pin _ hn hp = ground (
  arith,
  span-append is_name (c ∷ name) (pin_text pin) hn (Stops-pin_text is_name pin refl),
  span-append is_operator [] (pin_text pin) tt (Stops-pin_text is_operator pin refl),
  match_pin-pin_text pin hp,
)

Stops-of_operator : (m r : Bytes) → m ≢ [] → Holds is_operator m → Stops is_name (m ++ r)
Stops-of_operator [] r h _ = absurd (h refl)
Stops-of_operator (c ∷ m) r _ (h, _) = ground arith

Stops-of_version : (v r : Bytes) → v ≢ [] → Stops is_operator v → Stops is_operator (v ++ r)
Stops-of_version [] r h _ = absurd (h refl)
Stops-of_version (c ∷ v) r _ h = h

-- A name, an operator, a version and a pin.
match_name-operator :
    (name matcher version pin : Bytes)
    → name ≢ []
    → Holds is_name name
    → matcher ≢ []
    → Holds is_operator matcher
    → version ≢ []
    → Holds is_not_at version
    → Stops is_operator version
    → Holds is_alnum pin
    → match_name (name ++ (matcher ++ (version ++ pin_text pin)))
      ≡ some (record { name = name; matcher = matcher; version = version; pin = pin })
unfolding match_name match_operator
match_name-operator [] matcher version pin h _ _ _ _ _ _ _ = absurd (h refl)
match_name-operator (c ∷ name) [] version pin _ _ h _ _ _ _ _ = absurd (h refl)
match_name-operator (c ∷ name) (d ∷ matcher) [] pin _ _ _ _ h _ _ _ = absurd (h refl)
match_name-operator (c ∷ name) (d ∷ matcher) (e ∷ version) pin _ hn hm hms hv hvs hst hp = ground (
  arith,
  span-append is_name (c ∷ name) ((d ∷ matcher) ++ ((e ∷ version) ++ pin_text pin)) hn
      (Stops-of_operator (d ∷ matcher) ((e ∷ version) ++ pin_text pin) hm hms),
  span-append is_operator (d ∷ matcher) ((e ∷ version) ++ pin_text pin) hms
      (Stops-of_version (e ∷ version) (pin_text pin) hv hst),
  span-append is_not_at (e ∷ version) (pin_text pin) hvs (Stops-pin_text is_not_at pin refl),
  match_pin-pin_text pin hp,
)

operator_facts :
    (d : Dependency)
    → d ≢ version_any
    → (operator d ≢ []) × Holds is_operator (operator d) × (dependency (operator d) ≡ d)
unfolding dependency str_eq
operator_facts version_any h = absurd (h refl)
operator_facts version_equal _ = (cons-ne-nil _ _, (refl, tt), refl)
operator_facts version_greater _ = (cons-ne-nil _ _, (refl, tt), refl)
operator_facts version_less _ = (cons-ne-nil _ _, (refl, tt), refl)
operator_facts version_greater_equal _ = (cons-ne-nil _ _, (refl, (refl, tt)), refl)
operator_facts version_less_equal _ = (cons-ne-nil _ _, (refl, (refl, tt)), refl)
operator_facts version_tilde _ = (cons-ne-nil _ _, (refl, tt), refl)

parse_constraint_of_match :
    (s : Bytes) (g : Groups)
    → match_name s ≡ some g
    → parse_constraint s
      ≡ record { name = g.name; version = g.version; dep = dependency g.matcher; pin = g.pin }
unfolding parse_constraint
parse_constraint_of_match s g e = rw (e, parse_constraint)

parse_with_operator :
    (c : Constraint) → IsPlain c → c.dep ≢ version_any → parse_constraint (constraint_text c) ≡ c
parse_with_operator c h d =
    let (filled, holds, back) = operator_facts c.dep d in
    parse_constraint_of_match (constraint_text c) _ (
      match_name-operator c.name (operator c.dep) c.version c.pin h.named h.name filled holds
        (h.versioned.1 d) h.version h.version_start h.pin)
    ∙ cc back

parse_without_operator :
    (c : Constraint) → IsPlain c → c.dep ≡ version_any → parse_constraint (constraint_text c) ≡ c
unfolding dependency str_eq
parse_without_operator c h d =
    let v = h.versioned.0 d in
    let text : constraint_text c ≡ c.name ++ pin_text c.pin =
      ap₂ (λ (o v : Bytes). c.name ++ (o ++ (v ++ pin_text c.pin))) (ap operator d) v in
    rw text (
      parse_constraint_of_match (c.name ++ pin_text c.pin) _
        (match_name-no_operator c.name c.pin h.named h.name h.pin)
      ∙ cc (d, v))

-- The text of a constraint is read back as that constraint: its name, its version, its operator and
-- its pin, if the name is not empty and has no `@` or operator byte, there is a version exactly when
-- there is an operator, the version has no `@` and begins with no operator byte, and the pin is
-- alphanumeric.
pub parse_constraint-constraint_text :
    (c : Constraint) → IsPlain c → parse_constraint (constraint_text c) ≡ c
parse_constraint-constraint_text c h = elim (Dependency-discrete c.dep version_any) [
  | yes d ↦ parse_without_operator c h d
  | no d ↦ parse_with_operator c h d
]
