-- ===== src/Map.antt =====
-- `std::collections::BTreeMap`: an association list in the order of its keys, and `BTreeSet` as the
-- list of its keys. Iteration is in list order.
mod Defs
mod Laws
mod Sorted
unfoldable pub use Defs.*
pub use Laws.*
pub use Sorted.*
