-- ===== src/Resolver/Solve/Dependencies/Unvisited.antt =====
-- pkg/apk/repo.go: the names that `getPackageDependencies` can still visit below its parents.
use Prim.Native.Nat.{◌≤◌, ◌<◌}
use mathlib.Core.Bool.{not}
use go_apk.Base.{
  false, List, [], ◌∷◌, ◌≡◌, refl, inl, inr, arith, length, keep, In, In-append_left,
  In-append_right, Bool-cases,
}
use go_apk.Base.Bytes.{Bytes, str_eq, str_eq_refl}
use go_apk.Base.Maps.{lookup}
use go_apk.Resolver.Package.{Candidate}
use go_apk.Resolver.Index.{Resolver, flat}
use go_apk.Resolver.Compare.{str_mem}
use go_apk.Resolver.Solve.Dependencies.{Options}
use go_apk.Resolver.Solve.Dependencies.Gather.{Everywhere}

-- The names of the packages that the resolver lists.
abbrev pub names_of : List Candidate → List Bytes
names_of [] = []
names_of (c ∷ cs) = c.pkg.name ∷ names_of cs

abbrev pub names : Resolver → List Bytes
names r = names_of (flat r.name_map)

-- The names that no parent has.
unfoldable pub unvisited : List Bytes → List Bytes → List Bytes
unvisited parents all = keep (λ n. not (str_mem n parents)) all

length-unvisited-le :
    (name : Bytes) (parents all : List Bytes)
    → length (unvisited (name ∷ parents) all) ≤ length (unvisited parents all)
unfolding unvisited str_mem
length-unvisited-le name parents [] = omega arith
length-unvisited-le name parents (x ∷ all) = ground (arith, length-unvisited-le name parents all)

-- Visiting a package that no parent is leaves fewer to visit.
pub length-unvisited-lt :
    (name : Bytes) (parents all : List Bytes)
    → In name all
    → str_mem name parents ≡ false
    → length (unvisited (name ∷ parents) all) < length (unvisited parents all)
unfolding unvisited str_mem
length-unvisited-lt name parents [] i e = absurd i
length-unvisited-lt name parents (x ∷ all) (inl f) e =
    rw (← f) (ground (arith, length-unvisited-le name parents all, str_eq_refl name))
length-unvisited-lt name parents (x ∷ all) (inr i) e =
    ground (arith, length-unvisited-lt name parents all i e)

pub names_of-In : (cs : List Candidate) (c : Candidate) → In c cs → In c.pkg.name (names_of cs)
names_of-In [] c i = absurd i
names_of-In (d ∷ cs) c (inl e) = inl (rw e refl)
names_of-In (d ∷ cs) c (inr i) = inr (names_of-In cs c i)

pub flat-Everywhere : (m : Options) → Everywhere (λ c. In c (flat m)) m
unfolding lookup
flat-Everywhere [] k cs e c i = absurd (ground arith)
flat-Everywhere ((j, ds) ∷ m) k cs e c i = elim (Bool-cases (str_eq j k)) [
  | inl f ↦ let same : ds ≡ cs = ground arith in In-append_left c ds (flat m) (rw same i)
  | inr f ↦ In-append_right c ds (flat m) (flat-Everywhere m k cs (ground arith) c i)
]
