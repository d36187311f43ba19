-- ===== src/Resolver/Compare/Laws.antt =====
-- pkg/apk/repo.go: the steps of the comparison of `comparePackages`, one by one.
use mathlib.Core.Bool.{◌&&◌}
use go_apk.Base.{ℕ, Bool, true, false, ◌≡◌, ◌≢◌, refl, inl, inr, arith, Bool-cases}
use go_apk.Base.Bytes.{Bytes, str_eq, str_eq_iff}
use go_apk.Base.Order.{str_ltb_asymm, str_ltb_trans}
use go_apk.Version.{Version, Comparison, greater, equal, less, compare_versions}
use go_apk.Version.Order.{
  flip, AtMost, flip-compare_versions, compare_versions_trans, compare_versions-equal_iff,
}
use go_apk.Version.Parse.{ok, parse_version}
use go_apk.Resolver.Package.{Package, Candidate}
use go_apk.Resolver.Compare.{
  dep_version_for_name, prefer, compare_newest, compare_names, compare_own, compare_priority,
}

ok-injective : {v w : Version} → ok v ≡ ok w → v ≡ w
ok-injective h = cc

abbrev pub IsValid : Bytes → Type 0
IsValid s = (v : Version) × (parse_version s ≡ ok v)

-- The version that counts for the name, and the package's own, are valid.
pub record IsComparable (name : Bytes) (c : Candidate) : Type 0 where
  pub counted : IsValid (dep_version_for_name c.pkg name)
  pub own : IsValid c.pkg.version

module _ (x y : Bool) (r s : Comparison) where
  pub flip-prefer : s ≡ flip r → prefer y x s ≡ flip (prefer x y r)
  unfolding prefer
  flip-prefer h = ground arith

pub prefer_trans :
    (x y z : Bool) (r s t : Comparison)
    → (AtMost r → AtMost s → AtMost t)
    → AtMost (prefer x y r)
    → AtMost (prefer y z s)
    → AtMost (prefer x z t)
unfolding prefer
prefer_trans true true true r s t h p q = h p q
prefer_trans true true false r s t h p q = ground arith
prefer_trans true false z r s t h p q = ground arith
prefer_trans false true z r s t h p q = absurd (p refl)
prefer_trans false false true r s t h p q = absurd (q refl)
prefer_trans false false false r s t h p q = h p q

pub flip-compare_priority :
    (a b : ℕ) (r s : Comparison)
    → s ≡ flip r
    → compare_priority b a s ≡ flip (compare_priority a b r)
unfolding compare_priority
flip-compare_priority a b r s h = ground arith

pub compare_priority_trans :
    (a b c : ℕ) (r s t : Comparison)
    → (AtMost r → AtMost s → AtMost t)
    → AtMost (compare_priority a b r)
    → AtMost (compare_priority b c s)
    → AtMost (compare_priority a c t)
unfolding compare_priority
compare_priority_trans a b c r s t h p q = ground arith

pub flip-compare_names : (a b : Bytes) → compare_names b a ≡ flip (compare_names a b)
unfolding compare_names
flip-compare_names a b = ground (arith, str_ltb_asymm a b)

pub compare_names_trans :
    (a b c : Bytes)
    → AtMost (compare_names a b)
    → AtMost (compare_names b c)
    → AtMost (compare_names a c)
unfolding compare_names
compare_names_trans a b c p q = ground (
  arith,
  str_ltb_asymm a b,
  str_ltb_asymm b c,
  str_ltb_asymm a c,
  str_ltb_asymm c a,
  str_ltb_trans a b c,
)

-- The newest version first, at versions that are valid.
pub newest : Version → Version → Comparison → Comparison
newest v w rest = elim (compare_versions v w) [ greater ↦ less | less ↦ greater | equal ↦ rest ]

pub compare_newest_valid :
    (i j : Bytes) (v w : Version) (r : Comparison)
    → parse_version i ≡ ok v
    → parse_version j ≡ ok w
    → compare_newest i j r ≡ newest v w r
unfolding compare_newest newest
compare_newest_valid i j v w r h k = ground arith

pub flip-newest :
    (v w : Version) (r s : Comparison) → s ≡ flip r → newest w v s ≡ flip (newest v w r)
unfolding newest
flip-newest v w r s h = ground (arith, flip-compare_versions v w)

newest_greater :
    (u v w : Version)
    → compare_versions u v ≡ greater
    → compare_versions v w ≡ greater
    → compare_versions u w ≡ greater
newest_greater u v w h k =
    let up =
      compare_versions_trans w v u (λ e. ground (arith, flip-compare_versions v w))
        (λ e. ground (arith, flip-compare_versions u v)) in
    let same = compare_versions-equal_iff u w in
    let apart : compare_versions u w ≢ equal = λ e.
      let back : compare_versions w v ≡ greater = rw (← same.0 e) h in
      ground (arith, flip-compare_versions v w) in
    ground (arith, flip-compare_versions u w)

pub newest_trans :
    (u v w : Version) (r s t : Comparison)
    → (AtMost r → AtMost s → AtMost t)
    → AtMost (newest u v r)
    → AtMost (newest v w s)
    → AtMost (newest u w t)
unfolding newest
newest_trans u v w r s t h p q = go (compare_versions u v) (compare_versions v w) refl refl
  where
    go :
        (c d : Comparison)
        → compare_versions u v ≡ c
        → compare_versions v w ≡ d
        → AtMost (newest u w t)
    go less d e f = absurd (p (rw (e, newest)))
    go c less e f = absurd (q (rw (f, newest)))
    go greater greater e f = ground (arith, newest_greater u v w e f)
    go equal d e f = rw ((compare_versions-equal_iff u v).0 e) (ground arith)
    go greater equal e f = rw (← (compare_versions-equal_iff v w).0 f) (ground arith)

compare_own_same :
    (i j : Bytes) (a b : Package) (v w v' w' : Version) (r : Comparison)
    → parse_version i ≡ ok v
    → parse_version j ≡ ok w
    → parse_version a.version ≡ ok v'
    → parse_version b.version ≡ ok w'
    → compare_versions v w ≡ equal
    → compare_own i j a b r ≡ newest v' w' r
unfolding newest compare_own
compare_own_same i j a b v w v' w' r h k h' k' e =
    elim (Bool-cases (str_eq i a.version && str_eq j b.version)) [
      | inr f ↦ ground (arith, compare_newest_valid a.version b.version v' w' r h' k')
      | inl f ↦
          let x = (str_eq_iff i a.version).0 (ground arith) in
          let y = (str_eq_iff j b.version).0 (ground arith) in
          let x' : v' ≡ v = ok-injective (cc (h, h', x)) in
          let y' : w' ≡ w = ok-injective (cc (k, k', y)) in
          let e' : compare_versions v' w' ≡ equal = rw (x', y') e in ground arith
    ]

-- Where the counted versions compare equal, the own versions decide, whether they were compared or
-- not.
pub compare_own_valid :
    (i j : Bytes) (a b : Package) (v w v' w' : Version) (r : Comparison)
    → parse_version i ≡ ok v
    → parse_version j ≡ ok w
    → parse_version a.version ≡ ok v'
    → parse_version b.version ≡ ok w'
    → newest v w (compare_own i j a b r) ≡ newest v w (newest v' w' r)
unfolding newest
compare_own_valid i j a b v w v' w' r h k h' k' =
    ground (arith, compare_own_same i j a b v w v' w' r h k h' k')
