-- ===== src/Identity.antt =====
-- The identity tower: crates/identity-tower/src.
pub mod Keys
pub mod Roster
pub mod Authority
pub mod Keystore
