-- ===== src/Version/Tests.antt =====
-- Runs of the version code on concrete texts.
use go_apk.Base.{true, ◌↔◌, [], ◌∷◌, ◌≡◌, refl}
use go_apk.Base.Bytes.{codes}
use go_apk.Base.Decimal.{parse_int, numeral}
use go_apk.Version.{
  Version, pre_none, rc, post_none, post_p, less, greater, equal, version_equal, version_less,
  version_greater, version_less_equal, version_greater_equal, pre_value, post_value, compare_field,
  compare_common, pre_rank, compare_suffixes, compare_versions, starts_with, includes_version,
  satisfies, version_tilde,
}
use mathlib.Core.Bool.{not}
use go_apk.Version.Order.{
  AtMost, flip, compare_versions_trans, flip-compare_versions, compare_versions-equal_iff,
  satisfies_order,
}
use go_apk.Version.Includes.{Includes, includes_version_iff}
use go_apk.Version.Parse.{ok, err, no_match, bad_number, parse_version}

-- What the runs compute with.
program : Unit {0}
unfolding pre_value post_value compare_field compare_common pre_rank compare_suffixes
    compare_versions starts_with includes_version satisfies parse_version parse_int numeral
program = tt

abbrev v1_2_3_r4 : Version
v1_2_3_r4 = record {
  numbers = 1 ∷ 2 ∷ 3 ∷ [];
  letter = 0;
  pre_suffix = pre_none;
  pre_suffix_number = 0;
  post_suffix = post_none;
  post_suffix_number = 0;
  revision = 4;
}

abbrev v1b_rc2_p : Version
v1b_rc2_p = record {
  numbers = 1 ∷ [];
  letter = b'b';
  pre_suffix = rc;
  pre_suffix_number = 2;
  post_suffix = post_p;
  post_suffix_number = 0;
  revision = 0;
}

parse_tests :
    (parse_version (codes "1.2.3-r4") ≡ ok v1_2_3_r4)
    × (parse_version (codes "1b_rc2_p") ≡ ok v1b_rc2_p)
    × (parse_version (codes "1..2") ≡ err no_match)
    × (parse_version (codes "1_p2_rc") ≡ err no_match)
    × (parse_version (codes "1.9223372036854775808") ≡ err bad_number)
unfolding program
parse_tests = (refl, refl, refl, refl, refl)

compare_tests :
    (compare_versions v1b_rc2_p (record v1b_rc2_p { pre_suffix = pre_none }) ≡ less)
    × (compare_versions v1_2_3_r4 v1b_rc2_p ≡ greater)
    × (satisfies version_tilde v1_2_3_r4 (record v1_2_3_r4 { numbers = 1 ∷ 2 ∷ []; revision = 0 })
        ≡ true)
unfolding program
compare_tests = (refl, refl, refl)

-- Version 1.2.
abbrev v1_2 : Version
v1_2 = record v1_2_3_r4 { numbers = 1 ∷ 2 ∷ []; revision = 0 }

below_1_2 : AtMost (compare_versions v1b_rc2_p v1_2)
unfolding program
below_1_2 = cc

above_1_2 : AtMost (compare_versions v1_2 v1_2_3_r4)
unfolding program
above_1_2 = cc

compare_versions_trans_example : AtMost (compare_versions v1b_rc2_p v1_2_3_r4)
compare_versions_trans_example = compare_versions_trans v1b_rc2_p v1_2 v1_2_3_r4 below_1_2 above_1_2

flip-compare_versions_example :
    compare_versions v1_2 v1b_rc2_p ≡ flip (compare_versions v1b_rc2_p v1_2)
flip-compare_versions_example = flip-compare_versions v1b_rc2_p v1_2

compare_versions-equal_iff_example : (compare_versions v1_2 v1b_rc2_p ≡ equal) ↔ (v1_2 ≡ v1b_rc2_p)
compare_versions-equal_iff_example = compare_versions-equal_iff v1_2 v1b_rc2_p

satisfies_order_example :
    ((satisfies version_equal v1_2 v1_2_3_r4 ≡ true) ↔ (v1_2 ≡ v1_2_3_r4))
    × (satisfies version_less v1_2 v1_2_3_r4 ≡ satisfies version_greater v1_2_3_r4 v1_2)
    × (satisfies version_less_equal v1_2 v1_2_3_r4 ≡ not (satisfies version_greater v1_2 v1_2_3_r4))
    × (satisfies version_greater_equal v1_2 v1_2_3_r4 ≡ not (satisfies version_less v1_2 v1_2_3_r4))
satisfies_order_example = satisfies_order v1_2 v1_2_3_r4

includes_version_iff_example : (includes_version v1_2_3_r4 v1_2 ≡ true) ↔ Includes v1_2_3_r4 v1_2
includes_version_iff_example = includes_version_iff v1_2_3_r4 v1_2
