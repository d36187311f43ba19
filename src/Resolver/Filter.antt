-- ===== src/Resolver/Filter.antt =====
-- pkg/apk/version.go: `filterPackages`.
pub mod Laws
pub mod Matches
use mathlib.Core.Bool.{◌&&◌, not}
use go_apk.Base.{Bool, true, false, List, [], ◌∷◌, ◌++◌, Option, none, some, if◌then◌else◌, is_nil}
use go_apk.Base.Bytes.{Bytes, str_eq}
use go_apk.Version.{Version, Dependency, version_any, satisfies}
use go_apk.Version.Parse.{ok, err, parse_version}
use go_apk.Constraint.{parse_constraint}
use go_apk.Resolver.Package.{Package, Candidate, url, Disqualified, dqed}

-- `filterOptions`, with the values that stand where no option sets them.
pub record FilterOptions : Type 0 where
  pub allow_pin : Bytes
  pub prefer_pin : Bytes
  pub version : Bytes
  pub installed : Option Package
  pub compare : Dependency

abbrev pub no_options : FilterOptions
no_options = record {
  allow_pin = [];
  prefer_pin = [];
  version = [];
  installed = none;
  compare = version_any;
}

abbrev pub is_any : Dependency → Bool
is_any version_any = true
is_any d = false

-- The candidate's repository is pinned to a name that is neither allowed nor preferred, and the
-- installed package does not come from the same place.
unfoldable pub pin_rejects : FilterOptions → Candidate → Bool
unfolding url str_eq
pin_rejects o c =
    not (is_nil c.pinned_name)
    && not (str_eq c.pinned_name o.allow_pin)
    && not (str_eq c.pinned_name o.prefer_pin)
    && elim o.installed [ none ↦ true | some p ↦ not (str_eq (url p) (url c.pkg)) ]

-- The loop over `pkg.Provides`.
unfoldable pub provides_satisfying : Dependency → Version → List Bytes → Bool
provides_satisfying compare required [] = false
provides_satisfying compare required (prov ∷ provs) =
    let rest = provides_satisfying compare required provs in
    let version = (parse_constraint prov).version in
    if is_nil version then rest else elim (parse_version version) [
      | err e ↦ rest
      | ok actual ↦ if satisfies compare actual required then true else rest
    ]

-- The last part of the loop's body, at a required version that is valid.
unfoldable pub version_admits : Dependency → Version → Package → Bool
unfolding provides_satisfying
version_admits compare required p = elim (parse_version p.version) [
  | err e ↦ false
  | ok actual ↦
      if satisfies compare actual required
      then true
      else provides_satisfying compare required p.provides
]

-- The loop over the candidates; `passed` are those that passed so far. An invalid required version
-- gives no match at all.
unfoldable pub filter_loop :
    FilterOptions → Disqualified → List Candidate → List Candidate → List Candidate
filter_loop o dq passed [] = passed
filter_loop o dq passed (c ∷ cs) =
    let skip = filter_loop o dq passed cs in
    let take = filter_loop o dq (passed ++ c ∷ []) cs in
    if dqed c.pkg dq
    then skip
    else if pin_rejects o c
    then skip
    else if is_any o.compare
    then take
    else elim (parse_version o.version) [
      | err e ↦ []
      | ok required ↦ if version_admits o.compare required c.pkg then take else skip
    ]

unfoldable pub filter_packages : FilterOptions → Disqualified → List Candidate → List Candidate
unfolding filter_loop
filter_packages o dq pkgs = filter_loop o dq [] pkgs
