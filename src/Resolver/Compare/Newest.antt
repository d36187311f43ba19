-- ===== src/Resolver/Compare/Newest.antt =====
-- pkg/apk/repo.go: the package that `bestPackage` prefers is the newest.
use mathlib.Core.Path.{subst}
use go_apk.Base.{
  Bool, true, false, List, [], ◌∷◌, none, some, ◌≡◌, ◌≢◌, refl, arith, All, In, All_of_In,
}
use go_apk.Base.Bytes.{str_eq}
use go_apk.Base.Maps.{lookup}
use go_apk.Version.{Version, Comparison, less, greater, compare_versions}
use go_apk.Version.Order.{AtMost}
use go_apk.Version.Parse.{parse_version, ok}
use go_apk.Resolver.Package.{Candidate}
use go_apk.Resolver.Compare.{
  Slices, Preferences, dep_version_for_name, prefer, prefer_like, is_existing, str_mem,
  compare_newest, compare_priority, compare_packages, best_package,
}
use go_apk.Resolver.Compare.Laws.{IsComparable}
use go_apk.Resolver.Compare.Preorder.{MinLaws, compare_packages-IsPreorder}

prefer-same : (b : Bool) (rest : Comparison) → prefer b b rest ≡ rest
unfolding prefer
prefer-same true rest = refl
prefer-same false rest = refl

-- Of two packages between which nothing is preferred before, the older one comes after.
compare_packages-older :
    (o : Preferences) (c d : Candidate) (v w : Version)
    → o.compare ≡ none
    → o.existing ≡ []
    → o.existing_origins ≡ []
    → c.pinned_name ≡ d.pinned_name
    → c.pkg.provider_priority ≡ d.pkg.provider_priority
    → parse_version (dep_version_for_name c.pkg o.name) ≡ ok v
    → parse_version (dep_version_for_name d.pkg o.name) ≡ ok w
    → compare_versions v w ≡ less
    → compare_packages o c d ≡ greater
unfolding compare_packages prefer_like is_existing lookup str_mem compare_priority compare_newest
    prefer
compare_packages-older o c d v w e f g p q i j k =
    ground (arith, prefer-same (str_eq d.pinned_name o.pin))

-- Where no package is to compare with and none is to be installed already, what `bestPackage` returns
-- of candidates whose versions are valid is one of them, and of those with its pin and its priority
-- none has a newer version, each version being that which the package has or provides for the name.
pub best_package-newest :
    (lib : Slices) (o : Preferences) (c b d : Candidate) (cs : List Candidate) (v w : Version)
    → MinLaws lib
    → All (IsComparable o.name) (c ∷ cs)
    → o.compare ≡ none
    → o.existing ≡ []
    → o.existing_origins ≡ []
    → best_package lib o (c ∷ cs) ≡ some b
    → In d (c ∷ cs)
    → b.pinned_name ≡ d.pinned_name
    → b.pkg.provider_priority ≡ d.pkg.provider_priority
    → parse_version (dep_version_for_name b.pkg o.name) ≡ ok v
    → parse_version (dep_version_for_name d.pkg o.name) ≡ ok w
    → In b (c ∷ cs) × (compare_versions v w ≢ less)
unfolding best_package
best_package-newest lib o c b d cs v w laws h e f g r i p q j k =
    let least = laws.least (compare_packages o) c cs (compare_packages-IsPreorder o (c ∷ cs) h) in
    let same : lib.min_func (compare_packages o) c cs ≡ b = cc r in
    let here = rw same at (
      All_of_In d (λ x. AtMost (compare_packages o (lib.min_func (compare_packages o) c cs) x))
        (c ∷ cs) least i) in
    (
      subst (λ x. In x (c ∷ cs)) same (laws.member (compare_packages o) c cs),
      λ l. here (compare_packages-older o b d v w e f g p q j k l),
    )
