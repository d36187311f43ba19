-- ===== src/Resolver/Package.antt =====
-- The packages of an index (pkg/apk/package.go, pkg/apk/repository.go, pkg/apk/repo.go), and the set
-- of disqualified packages.
use go_apk.Base.{ℕ, Bool, true, false, List, [], ◌∷◌, ◌++◌, Option, none, some, ◌==◌, if◌then◌else◌}
use go_apk.Base.Bytes.{Bytes, codes}

-- `RepositoryPackage`: `id` is the pointer's identity, by which the map of disqualified packages is
-- keyed; `repository` is the URI of its repository.
pub record Package : Type 0 where
  pub id : ℕ
  pub name : Bytes
  pub version : Bytes
  pub origin : Bytes
  pub dependencies : List Bytes
  pub provides : List Bytes
  pub install_if : List Bytes
  pub provider_priority : ℕ
  pub repository : Bytes

-- `Package.Filename` and `RepositoryPackage.URL`.
unfoldable pub filename : Package → Bytes
filename p = p.name ++ (b'-' ∷ p.version ++ codes ".apk")

unfoldable pub url : Package → Bytes
url p = p.repository ++ (b'/' ∷ filename p)

-- `repositoryPackage`, with the name of the repository that it is pinned to.
pub record Candidate : Type 0 where
  pub pkg : Package
  pub pinned_name : Bytes

-- Why a package is disqualified.
pub data Reason : Type 0 where
  excluded : Bytes → Reason
  already_provided : Package → Bytes → Reason
  unparsable : Bytes → Reason
  unsatisfied : Bytes → Bytes → Reason

-- `map[*RepositoryPackage]string`.
abbrev pub Disqualified : Type 0
Disqualified = List (ℕ × Reason)

unfoldable pub reason_for : Package → Disqualified → Option Reason
reason_for p [] = none
reason_for p ((i, r) ∷ dq) = if i == p.id then some r else reason_for p dq

unfoldable pub dqed : Package → Disqualified → Bool
unfolding reason_for
dqed p dq = elim (reason_for p dq) [ none ↦ false | some r ↦ true ]

-- `PkgResolver.disqualify`: the newest reason stands first.
unfoldable pub disqualify : Disqualified → Package → Reason → Disqualified
disqualify dq p r = (p.id, r) ∷ dq
