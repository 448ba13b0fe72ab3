-- ===== src/Publication.antt =====
-- features/uploaded-file/publication: the coordinator that publishes and retires renditions.
pub mod Intent
pub mod Target
pub mod Ports
pub mod Claim
pub mod Run
pub mod Protocol
pub mod Stages
pub mod Verified
pub mod Entry
pub mod Outcomes
pub mod Staging
pub mod Refusals
mod Tests
