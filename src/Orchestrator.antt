-- ===== src/Orchestrator.antt =====
-- crates/orchestrator/src/lib.rs
pub mod Model
pub mod Fanout
pub mod Jobs
pub mod Campaign
pub mod Token
pub mod Remote
pub mod Preview
pub mod Rig
pub mod Vendor
pub mod Bundle
pub mod Flash
