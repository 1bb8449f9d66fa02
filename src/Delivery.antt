-- ===== src/Delivery.antt =====
-- From the tower to the jobs: the campaign that channel_target_l1 of
-- crates/software-tower/src/releases.rs signs, as fanout_l1 and l1_jobs of
-- crates/orchestrator/src/lib.rs read it.
pub mod Decoded
pub mod Images
pub mod FannedOut
pub mod EndToEnd
