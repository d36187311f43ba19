-- ===== src/Base.antt =====
-- The names that the other modules share: the libraries', passed on, and those of the children.
pub mod Names
pub mod Tests
pub mod Lists
pub mod Members
pub mod Bytes
pub mod Decimal
pub mod Order
pub mod Scanner
pub mod Base64
pub mod Paths
pub mod Maps
pub use Names.*
pub use Tests.*
pub use Lists.*
pub use Members.*
