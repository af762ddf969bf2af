-- ===== src/CrossCheck.antt =====
-- annotation_quality/service.py and annotation_quality/repository.py, the life of a cross-check round.
pub mod Inputs
pub mod Rounds
pub mod Admin
pub mod Submit
pub mod Decide
pub mod Adjudicate
pub mod Cancel
pub mod Claim
pub mod Draw
pub mod Lifecycle
pub mod Returns
pub mod Scenario
mod Examples
pub mod Commit
