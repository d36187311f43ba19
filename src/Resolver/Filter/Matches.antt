-- ===== src/Resolver/Filter/Matches.antt =====
-- pkg/apk/version.go: the candidates that `filterPackages` returns, described without its loops.
use go_apk.Base.{
  true, false, List, [], ◌∷◌, some, ◌≡◌, ◌≢◌, refl, ◌↔◌, ◌⊎◌, inl, inr, arith, is_nil, In,
  is_nil-false, ne_nil_of_false, nil_of_true, Option-cases, In-keep, Bool-cases,
}
use go_apk.Base.Bytes.{Bytes, str_eq, str_eq_iff}
use go_apk.Version.{Version, Dependency, version_any, satisfies}
use go_apk.Version.Parse.{ok, Result-cases, parse_version}
use go_apk.Constraint.{parse_constraint}
use go_apk.Resolver.Package.{Package, Candidate, url, Disqualified, dqed}
use go_apk.Resolver.Filter.{
  FilterOptions, is_any, pin_rejects, provides_satisfying, version_admits, filter_packages,
}
use go_apk.Resolver.Filter.Laws.{admits, filter_packages-keep}

-- A provided constraint states a version, which satisfies the operator.
record Provided (compare : Dependency) (required : Version) (prov : Bytes) : Type 0 where
  stated : (parse_constraint prov).version ≢ []
  version : Version
  parsed : parse_version (parse_constraint prov).version ≡ ok version
  satisfied : satisfies compare version required ≡ true

-- The package's own version is valid, and that or a provided one satisfies the operator.
record Satisfied (compare : Dependency) (required : Version) (p : Package) : Type 0 where
  version : Version
  parsed : parse_version p.version ≡ ok version
  satisfied :
      (satisfies compare version required ≡ true)
      ⊎ ((prov : Bytes) × In prov p.provides × Provided compare required prov)

module _ {compare : Dependency} {required : Version} (prov : Bytes) (provs : List Bytes) where
  later :
      (q : Bytes) × In q provs × Provided compare required q
      → (q : Bytes) × In q (prov ∷ provs) × Provided compare required q
  later (q, h, g) = (q, inr h, g)

provides_sound :
    (compare : Dependency) (required : Version) (provs : List Bytes)
    → provides_satisfying compare required provs ≡ true
    → (prov : Bytes) × In prov provs × Provided compare required prov
unfolding provides_satisfying
provides_sound compare required [] h = absurd (ground arith)
provides_sound compare required (prov ∷ provs) h =
    elim (Bool-cases (is_nil (parse_constraint prov).version)) [
      | inl e ↦ later prov provs (provides_sound compare required provs (ground arith))
      | inr e ↦ elim (Result-cases (parse_version (parse_constraint prov).version)) [
        | inr (f, g) ↦ later prov provs (provides_sound compare required provs (ground arith))
        | inl (v, g) ↦ elim (Bool-cases (satisfies compare v required)) [
          | inl s ↦ (
            prov,
            inl refl,
            record { stated = ne_nil_of_false _ e; version = v; parsed = g; satisfied = s },
          )
          | inr s ↦ later prov provs (provides_sound compare required provs (ground arith))
        ]
      ]
    ]

provides_complete :
    (compare : Dependency) (required : Version) (provs : List Bytes) (prov : Bytes)
    → In prov provs
    → Provided compare required prov
    → provides_satisfying compare required provs ≡ true
unfolding provides_satisfying
provides_complete compare required [] prov h g = absurd h
provides_complete compare required (q ∷ provs) prov (inl e) g =
    let stated : is_nil (parse_constraint q).version ≡ false =
      rw (← e) (is_nil-false (parse_constraint prov).version g.stated) in
    let parsed : parse_version (parse_constraint q).version ≡ ok g.version = rw (← e) g.parsed in
    ground (arith, g.satisfied)
provides_complete compare required (q ∷ provs) prov (inr h) g =
    ground (arith, provides_complete compare required provs prov h g)

version_admits_sound :
    (compare : Dependency) (required : Version) (p : Package)
    → version_admits compare required p ≡ true
    → Satisfied compare required p
unfolding version_admits
version_admits_sound compare required p h = elim (Result-cases (parse_version p.version)) [
  | inr (e, f) ↦ absurd (ground arith)
  | inl (v, f) ↦ elim (Bool-cases (satisfies compare v required)) [
    | inl s ↦ record { version = v; parsed = f; satisfied = inl s }
    | inr s ↦ record {
      version = v;
      parsed = f;
      satisfied = inr (provides_sound compare required p.provides (ground arith));
    }
  ]
]

version_admits_complete :
    (compare : Dependency) (required : Version) (p : Package)
    → Satisfied compare required p
    → version_admits compare required p ≡ true
unfolding version_admits
version_admits_complete compare required p g = elim g.satisfied [
  | inl s ↦ ground arith
  | inr (prov, h, f) ↦ ground (arith, provides_complete compare required p.provides prov h f)
]

-- The candidate is not pinned, or pinned to a name that is allowed or preferred, or it comes from
-- where the installed package came from.
abbrev PinAllowed : FilterOptions → Candidate → Type 0
PinAllowed o c =
    (c.pinned_name ≡ [])
    ⊎ (c.pinned_name ≡ o.allow_pin)
    ⊎ (c.pinned_name ≡ o.prefer_pin)
    ⊎ ((p : Package) × (o.installed ≡ some p) × (url p ≡ url c.pkg))

PinAllowed-of_pass : (o : FilterOptions) (c : Candidate) → pin_rejects o c ≡ false → PinAllowed o c
unfolding pin_rejects
PinAllowed-of_pass o c h = elim (Bool-cases (is_nil c.pinned_name)) [
  | inl e ↦ inl (nil_of_true c.pinned_name e)
  | inr e ↦ elim (Bool-cases (str_eq c.pinned_name o.allow_pin)) [
    | inl f ↦ inr (inl ((str_eq_iff _ _).0 f))
    | inr f ↦ elim (Bool-cases (str_eq c.pinned_name o.prefer_pin)) [
      | inl g ↦ inr (inr (inl ((str_eq_iff _ _).0 g)))
      | inr g ↦ elim (Option-cases o.installed) [
        | inl i ↦ absurd (ground arith)
        | inr (p, i) ↦ inr (inr (inr (p, i, (str_eq_iff _ _).0 (ground arith))))
      ]
    ]
  ]
]

pass-of_PinAllowed : (o : FilterOptions) (c : Candidate) → PinAllowed o c → pin_rejects o c ≡ false
unfolding pin_rejects
pass-of_PinAllowed o c (inl e) = let f : is_nil c.pinned_name ≡ true = rw e in ground arith
pass-of_PinAllowed o c (inr (inl e)) = ground (arith, (str_eq_iff c.pinned_name o.allow_pin).1 e)
pass-of_PinAllowed o c (inr (inr (inl e))) =
    ground (arith, (str_eq_iff c.pinned_name o.prefer_pin).1 e)
pass-of_PinAllowed o c (inr (inr (inr (p, i, e)))) =
    ground (arith, (str_eq_iff (url p) (url c.pkg)).1 e)

-- A candidate that may be installed under the options.
pub record Matches (o : FilterOptions) (dq : Disqualified) (c : Candidate) : Type 0 where
  qualified : dqed c.pkg dq ≡ false
  pinned : PinAllowed o c
  versioned :
      (o.compare ≡ version_any)
      ⊎ ((required : Version) × (parse_version o.version ≡ ok required)
          × Satisfied o.compare required c.pkg)

is_any_iff : (d : Dependency) → (is_any d ≡ true) ↔ (d ≡ version_any)
is_any_iff d = ground arith

Matches-of_admits :
    (o : FilterOptions) (dq : Disqualified) (c : Candidate) → admits o dq c ≡ true → Matches o dq c
Matches-of_admits o dq c h = record {
  qualified = ground arith;
  pinned = PinAllowed-of_pass o c (ground arith);
  versioned = elim (Bool-cases (is_any o.compare)) [
    | inl any ↦ inl ((is_any_iff o.compare).0 any)
    | inr e ↦ elim (Result-cases (parse_version o.version)) [
      | inr (f, g) ↦ absurd (ground arith)
      | inl (v, g) ↦ inr (v, g, version_admits_sound o.compare v c.pkg (ground arith))
    ]
  ];
}

admits-of_Matches :
    (o : FilterOptions) (dq : Disqualified) (c : Candidate) → Matches o dq c → admits o dq c ≡ true
admits-of_Matches o dq c m = elim m.versioned [
  | inl any ↦
      ground (arith, m.qualified, pass-of_PinAllowed o c m.pinned, (is_any_iff o.compare).1 any)
  | inr (v, g, s) ↦ ground (
    arith,
    m.qualified,
    pass-of_PinAllowed o c m.pinned,
    version_admits_complete o.compare v c.pkg s,
  )
]

-- `filterPackages` returns exactly those of its candidates that are not disqualified, whose pin is
-- absent, allowed, preferred or that of the installed package's place, and, unless any version will
-- do, whose valid version, or a version that they provide, satisfies the operator at a required
-- version that is valid.
pub filter_packages-Matches :
    (o : FilterOptions) (dq : Disqualified) (pkgs : List Candidate) (c : Candidate)
    → In c (filter_packages o dq pkgs) ↔ (In c pkgs × Matches o dq c)
filter_packages-Matches o dq pkgs c = rw (filter_packages-keep o dq pkgs) (
  λ h. let (i, a) = (In-keep (admits o dq) c pkgs).0 h in (i, Matches-of_admits o dq c a),
  λ (i, m). (In-keep (admits o dq) c pkgs).1 (i, admits-of_Matches o dq c m),
)
