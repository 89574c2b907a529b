-- ===== src/Entities.antt =====
-- internal/entity: what a conversation knows of the instances of its account.
pub mod Snapshot
pub mod Registry
pub mod Verify
pub mod Listing
pub mod Tracking
pub mod Verdicts
pub mod Decided
pub mod Resolve
pub mod Names
pub mod Indexed
pub mod Exact
mod Examples
