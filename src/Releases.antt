-- ===== src/Releases.antt =====
-- crates/software-tower/src/releases.rs: releases, channels and the assembly of the L1 campaign,
-- over the tables of crates/software-tower/migrations.
pub mod Tables
pub mod Identity
pub mod Publish
pub mod Resolve
pub mod Channel
pub mod Partition
pub mod L1
pub mod History
