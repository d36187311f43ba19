-- ===== src/World/Tests.antt =====
-- Runs of the code of the world file.
use go_apk.Base.{List, [], ◌∷◌, ◌≡◌, ◌↔◌, refl, All, In}
use go_apk.Base.Bytes.{Bytes, codes, str_ltb, join}
use go_apk.World.{sort_strings, insert_string, get_world, set_world}
use go_apk.World.Laws.{IsWord, IsSorted, get_world-set_world}

abbrev two_names : List Bytes
two_names = codes "wget" ∷ codes "curl>8" ∷ []

set_world_tests : set_world two_names ≡ codes "curl>8\nwget\n"
unfolding set_world sort_strings insert_string str_ltb join
set_world_tests = refl

two_names-IsWord : All IsWord two_names
two_names-IsWord = (
  record { some_byte = λ e. absurd (cc e); no_space = (refl, (refl, (refl, (refl, tt)))) },
  (
    record {
      some_byte = λ e. absurd (cc e);
      no_space = (refl, (refl, (refl, (refl, (refl, (refl, tt))))));
    },
    tt,
  ),
)

get_world-set_world_example :
    IsSorted (get_world (set_world two_names))
    × ((name : Bytes) → In name (get_world (set_world two_names)) ↔ In name two_names)
get_world-set_world_example = get_world-set_world two_names two_names-IsWord
