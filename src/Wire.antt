-- ===== src/Wire.antt =====
-- crates/wire/src/lib.rs: the shared wire types, the diff of two vehicle trees, the convergence
-- assessment and the flash plan.
pub mod Contents
pub mod Hash
pub mod Model
pub mod Slots
pub mod Roster
pub mod Diff
pub mod Assess
pub mod Plan
