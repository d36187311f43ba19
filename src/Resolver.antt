-- ===== src/Resolver.antt =====
-- pkg/apk/repo.go: the package resolver.
pub mod Package
pub mod Index
pub mod Cache
pub mod Filter
pub mod Compare
pub mod Disqualify
pub mod Solve
pub mod Tests
