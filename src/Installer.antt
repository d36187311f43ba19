-- ===== src/Installer.antt =====
-- pkg/apk/implementation.go and pkg/apk/installed.go: installing packages and recording them.
pub mod Sorting
pub mod Shorter
pub mod Trees
pub mod Placed
pub mod Complete
pub mod Found
pub mod Listing
pub mod Reached
pub mod Records
pub mod Perms
pub mod Listed
pub mod Recorded
pub mod Append
pub mod Keys
pub mod InitDb
pub mod Growing
pub mod Grows
pub mod InitLaws
pub mod Control
pub mod Packages
pub mod Exclusive
pub mod Tests
pub mod Runs
