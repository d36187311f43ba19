-- ===== src/Resolver/Index.antt =====
-- pkg/apk/repo.go: `NewPkgResolver`.
pub mod Laws
use go_apk.Base.{List, [], ◌∷◌, ◌++◌}
use go_apk.Base.Bytes.{Bytes}
use go_apk.Base.Maps.{Map, append_at}
use go_apk.Constraint.{parse_constraint}
use go_apk.Resolver.Package.{Package, Candidate}

-- `NamedIndex`: its name and its packages.
pub record NamedIndex : Type 0 where
  pub name : Bytes
  pub packages : List Package

-- `PkgResolver`, without its two caches.
pub record Resolver : Type 0 where
  pub indexes : List NamedIndex
  pub name_map : Map (List Candidate)
  pub install_if_map : Map (List Candidate)

abbrev pub candidate : NamedIndex → Package → Candidate
candidate index p = record { pkg = p; pinned_name = index.name }

-- The candidates of all indexes, in order.
unfoldable pub candidates_in : NamedIndex → List Package → List Candidate
candidates_in index [] = []
candidates_in index (p ∷ ps) = candidate index p ∷ candidates_in index ps

unfoldable pub candidates : List NamedIndex → List Candidate
candidates [] = []
candidates (i ∷ is) = candidates_in i i.packages ++ candidates is

-- The first loop: every package under its name.
unfoldable pub add_names : List Candidate → Map (List Candidate) → Map (List Candidate)
add_names [] m = m
add_names (c ∷ cs) m = add_names cs (append_at c.pkg.name c m)

unfoldable pub add_install_ifs :
    Candidate → List Bytes → Map (List Candidate) → Map (List Candidate)
add_install_ifs c [] m = m
add_install_ifs c (dep ∷ deps) m = add_install_ifs c deps (append_at dep c m)

unfoldable pub add_all_install_ifs : List Candidate → Map (List Candidate) → Map (List Candidate)
add_all_install_ifs [] m = m
add_all_install_ifs (c ∷ cs) m = add_all_install_ifs cs (add_install_ifs c c.pkg.install_if m)

-- The last loop: every package under each name that it provides.
unfoldable pub add_provides : Candidate → List Bytes → Map (List Candidate) → Map (List Candidate)
add_provides c [] m = m
add_provides c (p ∷ ps) m = add_provides c ps (append_at (parse_constraint p).name c m)

unfoldable pub add_all_provides : List Candidate → Map (List Candidate) → Map (List Candidate)
add_all_provides [] m = m
add_all_provides (c ∷ cs) m = add_all_provides cs (add_provides c c.pkg.provides m)

abbrev pub flat : Map (List Candidate) → List Candidate
flat [] = []
flat ((k, cs) ∷ m) = cs ++ flat m

-- `order` is the order in which Go iterates over the map of the first loop.
unfoldable pub new_resolver :
    (Map (List Candidate) → Map (List Candidate)) → List NamedIndex → Resolver
new_resolver order indexes =
    let all = candidates indexes in
    let named = add_names all [] in
    record {
      indexes = indexes;
      name_map = add_all_provides (flat (order named)) named;
      install_if_map = add_all_install_ifs all [];
    }
