-- ===== src/Resolver/Index/Laws.antt =====
-- pkg/apk/repo.go: `NewPkgResolver` lists a package only under names that it has or provides.
use go_apk.Base.{
  List, [], ◌∷◌, ◌++◌, some, ◌≡◌, refl, inl, inr, arith, All, All-append, In, Bool-cases,
  Option-cases,
}
use go_apk.Base.Bytes.{Bytes, str_eq, str_eq_iff}
use go_apk.Base.Maps.{Map, lookup, lookup-insert, append_at, or_nil}
use go_apk.Constraint.{parse_constraint}
use go_apk.Resolver.Package.{Package, Candidate}
use go_apk.Resolver.Index.{
  NamedIndex, candidates, add_names, add_provides, add_all_provides, flat, new_resolver,
}

-- The package has the name, or provides it.
pub data Offers (name : Bytes) (p : Package) : Type 0 where
  by_name : p.name ≡ name → Offers name p
  by_provides :
      (prov : Bytes) → In prov p.provides → (parse_constraint prov).name ≡ name → Offers name p

-- Every candidate that the map has under a name offers that name.
abbrev pub IsSound : Map (List Candidate) → Type 0
IsSound m =
    (name : Bytes) (cs : List Candidate) → lookup name m ≡ some cs → All (λ c. Offers name c.pkg) cs

or_nil-All :
    (m : Map (List Candidate)) (k : Bytes)
    → IsSound m
    → All (λ c. Offers k c.pkg) (or_nil (lookup k m))
or_nil-All m k h = elim (Option-cases (lookup k m)) [
  | inl e ↦ rw e tt
  | inr (cs, e) ↦ rw e (h k cs e)
]

append_at-IsSound :
    (k : Bytes) (c : Candidate) (m : Map (List Candidate))
    → Offers k c.pkg
    → IsSound m
    → IsSound (append_at k c m)
append_at-IsSound k c m o h name cs e = elim (Bool-cases (str_eq k name)) [
  | inl f ↦
      let same : or_nil (lookup k m) ++ c ∷ [] ≡ cs =
        ground (arith, lookup-insert k name (or_nil (lookup k m) ++ c ∷ []) m) in
      rw (← same, ← (str_eq_iff k name).0 f)
        (All-append (λ d. Offers k d.pkg) (or_nil (lookup k m)) (c ∷ []) (or_nil-All m k h) (o, tt))
  | inr f ↦ h name cs (ground (arith, lookup-insert k name (or_nil (lookup k m) ++ c ∷ []) m))
]

add_names-IsSound :
    (cs : List Candidate) (m : Map (List Candidate)) → IsSound m → IsSound (add_names cs m)
unfolding add_names
add_names-IsSound [] m h = h
add_names-IsSound (c ∷ cs) m h =
    add_names-IsSound cs _ (append_at-IsSound c.pkg.name c m (by_name refl) h)

add_provides-IsSound :
    (c : Candidate) (ps : List Bytes) (m : Map (List Candidate))
    → ((p : Bytes) → In p ps → In p c.pkg.provides)
    → IsSound m
    → IsSound (add_provides c ps m)
unfolding add_provides
add_provides-IsSound c [] m sub h = h
add_provides-IsSound c (p ∷ ps) m sub h =
    add_provides-IsSound c ps _ (λ q i. sub q (inr i))
      (append_at-IsSound (parse_constraint p).name c m (by_provides p (sub p (inl refl)) refl) h)

add_all_provides-IsSound :
    (cs : List Candidate) (m : Map (List Candidate)) → IsSound m → IsSound (add_all_provides cs m)
unfolding add_all_provides
add_all_provides-IsSound [] m h = h
add_all_provides-IsSound (c ∷ cs) m h =
    add_all_provides-IsSound cs _ (add_provides-IsSound c c.pkg.provides m (λ p i. i) h)

-- In whatever order Go iterates over its map, `NewPkgResolver` lists a package under a name only if
-- the package has or provides that name.
pub new_resolver-IsSound :
    (order : Map (List Candidate) → Map (List Candidate)) (indexes : List NamedIndex)
    → IsSound (new_resolver order indexes).name_map
unfolding new_resolver
new_resolver-IsSound order indexes =
    add_all_provides-IsSound (flat (order (add_names (candidates indexes) [])))
      (add_names (candidates indexes) [])
      (add_names-IsSound (candidates indexes) [] (λ name cs e. absurd (unfold lookup in cc e)))
