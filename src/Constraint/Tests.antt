-- ===== src/Constraint/Tests.antt =====
-- Runs of the constraint code on concrete texts.
use go_apk.Base.{[], ◌≡◌, refl}
use go_apk.Base.Bytes.{codes, str_eq, span}
use go_apk.Version.{version_any, version_greater_equal, version_tilde}
use mathlib.Core.List.{cons-ne-nil}
use go_apk.Constraint.Laws.{IsPlain, parse_constraint-constraint_text}
use go_apk.Constraint.{
  Constraint, match_pin, match_operator, match_name, dependency, parse_constraint,
}

program : Unit {0}
unfolding str_eq span match_pin match_operator match_name dependency parse_constraint
program = tt

parse_tests :
    (parse_constraint (codes "foo>=1.2@edge") ≡ record {
      name = codes "foo";
      version = codes "1.2";
      dep = version_greater_equal;
      pin = codes "edge";
    })
    × (parse_constraint (codes "foo")
        ≡ record { name = codes "foo"; version = []; dep = version_any; pin = [] })
    × (parse_constraint (codes "foo=@x")
        ≡ record { name = codes "foo=@x"; version = []; dep = version_any; pin = [] })
    × (parse_constraint (codes "foo~=")
        ≡ record { name = codes "foo"; version = codes "="; dep = version_tilde; pin = [] })
unfolding program
parse_tests = (refl, refl, refl, refl)

abbrev pinned : Constraint
pinned = record {
  name = codes "foo";
  version = codes "1.2";
  dep = version_greater_equal;
  pin = codes "edge";
}

pinned-IsPlain : IsPlain pinned
pinned-IsPlain = record {
  named = cons-ne-nil _ _;
  name = (refl, (refl, (refl, tt)));
  versioned = (λ h. cc, λ h. cons-ne-nil _ _);
  version = (refl, (refl, (refl, tt)));
  version_start = refl;
  pin = (refl, (refl, (refl, (refl, tt))));
}

parse_constraint-constraint_text_example : parse_constraint (codes "foo>=1.2@edge") ≡ pinned
parse_constraint-constraint_text_example = parse_constraint-constraint_text pinned pinned-IsPlain
