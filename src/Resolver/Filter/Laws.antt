-- ===== src/Resolver/Filter/Laws.antt =====
-- pkg/apk/version.go: which candidates `filterPackages` lets through.
use mathlib.Core.Bool.{◌&&◌, ◌||◌, not}
use mathlib.Core.List.{append-nil, append_assoc}
use go_apk.Base.{
  Bool, true, false, List, [], ◌∷◌, ◌++◌, ◌≡◌, refl, ◌⊎◌, inl, inr, sym, arith, keep, Bool-cases,
  ◌∙◌,
}
use go_apk.Version.{Version}
use go_apk.Version.Parse.{Error, ok, err, Result-cases, parse_version}
use go_apk.Resolver.Package.{Candidate, Disqualified, dqed}
use go_apk.Resolver.Filter.{
  FilterOptions, is_any, pin_rejects, version_admits, filter_loop, filter_packages,
}

-- The candidate passes the filter.
abbrev pub admits : FilterOptions → Disqualified → Candidate → Bool
admits o dq c =
    not (dqed c.pkg dq)
    && not (pin_rejects o c)
    && (is_any o.compare || elim (parse_version o.version) [
      | err e ↦ false
      | ok required ↦ version_admits o.compare required c.pkg
    ])

-- The loop appends what passes.
filter_loop-keep :
    (o : FilterOptions) (dq : Disqualified) (passed pkgs : List Candidate)
    → (is_any o.compare ≡ true) ⊎ ((v : Version) × (parse_version o.version ≡ ok v))
    → filter_loop o dq passed pkgs ≡ passed ++ keep (admits o dq) pkgs
unfolding filter_loop
filter_loop-keep o dq passed [] h = sym (append-nil passed)
filter_loop-keep o dq passed (c ∷ cs) h = ground (
  arith,
  filter_loop-keep o dq passed cs h,
  filter_loop-keep o dq (passed ++ c ∷ []) cs h,
  append_assoc passed (c ∷ []) (keep (admits o dq) cs),
)

-- An invalid required version lets nothing through.
module _ (o : FilterOptions) (dq : Disqualified) (e : Error) where
  keep_invalid :
      (pkgs : List Candidate)
      → is_any o.compare ≡ false
      → parse_version o.version ≡ err e
      → keep (admits o dq) pkgs ≡ []
  keep_invalid [] h k = refl
  keep_invalid (c ∷ cs) h k = ground (arith, keep_invalid cs h k)

  filter_loop_invalid :
      (pkgs : List Candidate)
      → is_any o.compare ≡ false
      → parse_version o.version ≡ err e
      → filter_loop o dq [] pkgs ≡ []
  unfolding filter_loop
  filter_loop_invalid [] h k = refl
  filter_loop_invalid (c ∷ cs) h k = ground (arith, filter_loop_invalid cs h k)

-- `filterPackages` keeps the admitted candidates, in order.
pub filter_packages-keep :
    (o : FilterOptions) (dq : Disqualified) (pkgs : List Candidate)
    → filter_packages o dq pkgs ≡ keep (admits o dq) pkgs
unfolding filter_packages
filter_packages-keep o dq pkgs = elim (Bool-cases (is_any o.compare)) [
  | inl any ↦ filter_loop-keep o dq [] pkgs (inl any)
  | inr some_version ↦ elim (Result-cases (parse_version o.version)) [
    | inl valid ↦ filter_loop-keep o dq [] pkgs (inr valid)
    | inr (e, invalid) ↦
        filter_loop_invalid o dq e pkgs some_version invalid
        ∙ sym (keep_invalid o dq e pkgs some_version invalid)
  ]
]
