-- ===== src/Tests.antt =====
-- Runs on concrete inputs.
pub mod Samples
pub mod Codec
mod WireRuns
mod PreviewRuns
pub mod ContentRuns
mod ReleaseRuns
pub mod ChannelRuns
pub mod CampaignRuns
mod DeliveryRuns
mod IdentityRuns
pub mod CliRuns
mod RigRuns
pub mod FlashRuns
mod CommandRuns
mod StoreRuns
mod AuthorityRuns
