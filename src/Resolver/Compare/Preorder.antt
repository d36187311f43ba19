-- ===== src/Resolver/Compare/Preorder.antt =====
-- pkg/apk/repo.go: the comparison of `comparePackages` is a total preorder on packages whose
-- versions are valid.
use go_apk.Base.{List, ◌∷◌, Option, none, some, ◌≡◌, All, All_of_In, In}
use go_apk.Base.Bytes.{str_eq}
use go_apk.Version.{Version, Comparison}
use go_apk.Version.Order.{flip, AtMost}
use go_apk.Resolver.Package.{Package, Candidate}
use go_apk.Resolver.Compare.{
  dep_version_for_name, Preferences, Slices, prefer, prefer_like, is_existing, str_mem,
  compare_names, compare_own, compare_priority, compare_packages,
}
use go_apk.Resolver.Compare.Laws.{
  IsComparable, flip-prefer, prefer_trans, flip-compare_priority, compare_priority_trans,
  flip-compare_names, compare_names_trans, newest, compare_newest_valid, flip-newest, newest_trans,
  compare_own_valid,
}

-- The comparison with its versions at hand.
ranked : Preferences → Candidate → Candidate → Version → Version → Version → Version → Comparison
ranked o c d v w v' w' =
    let a = c.pkg in
    let b = d.pkg in
    prefer_like o.compare a b (
      prefer (is_existing o.existing a) (is_existing o.existing b) (
        prefer (str_mem a.origin o.existing_origins) (str_mem b.origin o.existing_origins) (
          prefer (str_eq c.pinned_name o.pin) (str_eq d.pinned_name o.pin) (
            compare_priority a.provider_priority b.provider_priority
              (newest v w (newest v' w' (compare_names a.name b.name)))))))

module _ (o : Preferences) (c d : Candidate) (hc : IsComparable o.name c)
    (hd : IsComparable o.name d) where
  compare_packages-ranked :
      compare_packages o c d ≡ ranked o c d hc.counted.0 hd.counted.0 hc.own.0 hd.own.0
  unfolding compare_packages ranked
  compare_packages-ranked = rw (
    compare_newest_valid (dep_version_for_name c.pkg o.name) (dep_version_for_name d.pkg o.name)
        hc.counted.0 hd.counted.0
        (compare_own (dep_version_for_name c.pkg o.name) (dep_version_for_name d.pkg o.name) c.pkg
          d.pkg (compare_names c.pkg.name d.pkg.name))
        hc.counted.1 hd.counted.1,
    compare_own_valid (dep_version_for_name c.pkg o.name) (dep_version_for_name d.pkg o.name) c.pkg
        d.pkg hc.counted.0 hd.counted.0 hc.own.0 hd.own.0 (compare_names c.pkg.name d.pkg.name)
        hc.counted.1 hd.counted.1 hc.own.1 hd.own.1,
  )

flip-prefer_like :
    (p : Option Package) (a b : Package) (r s : Comparison)
    → s ≡ flip r
    → prefer_like p b a s ≡ flip (prefer_like p a b r)
unfolding prefer_like
flip-prefer_like none a b r s h = h
flip-prefer_like (some p) a b r s h = flip-prefer _ _ _ _ (flip-prefer _ _ _ _ h)

prefer_like_trans :
    (p : Option Package) (a b c : Package) (r s t : Comparison)
    → (AtMost r → AtMost s → AtMost t)
    → AtMost (prefer_like p a b r)
    → AtMost (prefer_like p b c s)
    → AtMost (prefer_like p a c t)
unfolding prefer_like
prefer_like_trans none a b c r s t h = h
prefer_like_trans (some p) a b c r s t h = prefer_trans _ _ _ _ _ _ (prefer_trans _ _ _ _ _ _ h)

flip-ranked :
    (o : Preferences) (c d : Candidate) (v w v' w' : Version)
    → ranked o d c w v w' v' ≡ flip (ranked o c d v w v' w')
unfolding ranked
flip-ranked o c d v w v' w' = flip-prefer_like _ _ _ _ _ (
    flip-prefer _ _ _ _ (
      flip-prefer _ _ _ _ (
        flip-prefer _ _ _ _ (
          flip-compare_priority _ _ _ _ (
            flip-newest _ _ _ _
              (flip-newest _ _ _ _ (flip-compare_names c.pkg.name d.pkg.name)))))))

ranked_trans :
    (o : Preferences) (c d e : Candidate) (u v w u' v' w' : Version)
    → AtMost (ranked o c d u v u' v')
    → AtMost (ranked o d e v w v' w')
    → AtMost (ranked o c e u w u' w')
unfolding ranked
ranked_trans o c d e u v w u' v' w' = prefer_like_trans o.compare c.pkg d.pkg e.pkg _ _ _ (
    prefer_trans _ _ _ _ _ _ (
      prefer_trans _ _ _ _ _ _ (
        prefer_trans _ _ _ _ _ _ (
          compare_priority_trans _ _ _ _ _ _
            (newest_trans u v w _ _ _ (newest_trans u' v' w' _ _ _ (compare_names_trans _ _ _)))))))

-- A comparison on a list: swapped arguments give the opposite answer, and it is transitive.
pub record IsPreorder (f : Candidate → Candidate → Comparison) (cs : List Candidate) : Type 0 where
  pub mirrored : (c d : Candidate) → In c cs → In d cs → f d c ≡ flip (f c d)
  pub transitive :
      (c d e : Candidate)
      → In c cs
      → In d cs
      → In e cs
      → AtMost (f c d)
      → AtMost (f d e)
      → AtMost (f c e)

-- On candidates whose versions are valid, the comparison of `comparePackages` is a total preorder,
-- whatever package to compare with, names, origins and pin it is made for.
pub compare_packages-IsPreorder :
    (o : Preferences) (cs : List Candidate)
    → All (IsComparable o.name) cs
    → IsPreorder (compare_packages o) cs
compare_packages-IsPreorder o cs h = record {
  mirrored = λ c d ic id'. mirror c d (valid c ic) (valid d id');
  transitive = λ c d e ic id' ie. trans c d e (valid c ic) (valid d id') (valid e ie);
}
  where
    valid : (c : Candidate) → In c cs → IsComparable o.name c
    valid c i = All_of_In c (IsComparable o.name) cs h i

    mirror :
        (c d : Candidate)
        → IsComparable o.name c
        → IsComparable o.name d
        → compare_packages o d c ≡ flip (compare_packages o c d)
    mirror c d hc hd =
        rw (compare_packages-ranked o c d hc hd, compare_packages-ranked o d c hd hc)
          (flip-ranked o c d _ _ _ _)

    trans :
        (c d e : Candidate)
        → IsComparable o.name c
        → IsComparable o.name d
        → IsComparable o.name e
        → AtMost (compare_packages o c d)
        → AtMost (compare_packages o d e)
        → AtMost (compare_packages o c e)
    trans c d e hc hd he =
        rw
          (
            compare_packages-ranked o c d hc hd,
            compare_packages-ranked o d e hd he,
            compare_packages-ranked o c e hc he,
          )
          (ranked_trans o c d e _ _ _ _ _ _)

-- What is documented of `slices.MinFunc`: its result is an element, and a least one where the
-- comparison is a total preorder.
pub record MinLaws (lib : Slices) : Type 0 where
  pub member :
      (f : Candidate → Candidate → Comparison) (c : Candidate) (cs : List Candidate)
      → In (lib.min_func f c cs) (c ∷ cs)
  pub least :
      (f : Candidate → Candidate → Comparison) (c : Candidate) (cs : List Candidate)
      → IsPreorder f (c ∷ cs)
      → All (λ d. AtMost (f (lib.min_func f c cs) d)) (c ∷ cs)
