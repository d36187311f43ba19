-- ===== src/Resolver/Disqualify/Laws.antt =====
-- pkg/apk/repo.go: `conflictingVersion` is only called with packages that provide the constraint, so
-- its panic is never reached.
use go_apk.Base.{true, List, [], ◌∷◌, none, ◌≡◌, ◌≢◌, inl, inr, arith, All, In, Option-cases}
use go_apk.Base.Bytes.{Bytes, str_eq, str_eq_iff}
use go_apk.Base.Maps.{Map, lookup}
use go_apk.Constraint.{Constraint, parse_constraint}
use go_apk.Resolver.Package.{Package, Candidate, Disqualified, disqualify, already_provided}
use go_apk.Resolver.Index.{NamedIndex, Resolver, new_resolver}
use go_apk.Resolver.Index.Laws.{Offers, by_name, by_provides, IsSound, new_resolver-IsSound}
use go_apk.Resolver.Disqualify.{
  conflicting_provides, conflicting_version, conflict_all, conflict_provides, disqualify_conflicts,
}

conflicting_provides-ne-none :
    (c : Constraint) (provs : List Bytes) (prov : Bytes)
    → In prov provs
    → (parse_constraint prov).name ≡ c.name
    → conflicting_provides c provs ≢ none
unfolding conflicting_provides
conflicting_provides-ne-none c [] prov i e = absurd i
conflicting_provides-ne-none c (q ∷ provs) prov (inl f) e =
    let g : str_eq (parse_constraint q).name c.name ≡ true = (str_eq_iff _ _).1 (rw (← f) e) in
    ground arith
conflicting_provides-ne-none c (q ∷ provs) prov (inr i) e =
    ground (arith, conflicting_provides-ne-none c provs prov i e)

conflicting_version-ne-none :
    (c : Constraint) (p : Package) → Offers c.name p → conflicting_version c p ≢ none
unfolding conflicting_version
conflicting_version-ne-none c p (by_name e) = ground (arith, (str_eq_iff p.name c.name).1 e)
conflicting_version-ne-none c p (by_provides prov i e) =
    ground (arith, conflicting_provides-ne-none c p.provides prov i e)

conflict_all-ne-none :
    (pkg : Package) (c : Constraint) (cs : List Candidate) (dq : Disqualified)
    → All (λ d. Offers c.name d.pkg) cs
    → conflict_all pkg c cs dq ≢ none
unfolding conflict_all
conflict_all-ne-none pkg c [] dq _ = ground arith
conflict_all-ne-none pkg c (d ∷ cs) dq (o, h) = ground (
  arith,
  conflicting_version-ne-none c d.pkg o,
  conflict_all-ne-none pkg c cs dq h,
  conflict_all-ne-none pkg c cs (disqualify dq d.pkg (already_provided pkg c.name)) h,
)

conflict_provides-ne-none :
    (r : Resolver) (pkg : Package) (provs : List Bytes) (dq : Disqualified)
    → IsSound r.name_map
    → conflict_provides r pkg provs dq ≢ none
unfolding conflict_provides
conflict_provides-ne-none r pkg [] dq h = ground arith
conflict_provides-ne-none r pkg (prov ∷ provs) dq h =
    elim (Option-cases (lookup (parse_constraint prov).name r.name_map)) [
      | inl e ↦ rw (e, conflict_provides) (conflict_provides-ne-none r pkg provs dq h)
      | inr (cs, e) ↦ elim (Option-cases (conflict_all pkg (parse_constraint prov) cs dq)) [
        | inl f ↦ absurd (conflict_all-ne-none pkg (parse_constraint prov) cs dq (h _ cs e) f)
        | inr (dq', f) ↦ rw (e, f, conflict_provides) (conflict_provides-ne-none r pkg provs dq' h)
      ]
    ]

-- With a resolver that `NewPkgResolver` made, `disqualifyConflicts` never panics, whatever the
-- package and the packages that are disqualified already.
pub disqualify_conflicts-ne-none :
    (order : Map (List Candidate) → Map (List Candidate)) (indexes : List NamedIndex)
    (pkg : Package) (dq : Disqualified)
    → disqualify_conflicts (new_resolver order indexes) pkg dq ≢ none
unfolding disqualify_conflicts
disqualify_conflicts-ne-none order indexes pkg dq =
    conflict_provides-ne-none (new_resolver order indexes) pkg pkg.provides dq
      (new_resolver-IsSound order indexes)
