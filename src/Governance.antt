-- ===== src/Governance.antt =====
-- The governance chaincode, chaincode/governance/governance.go: admission of organisations by vote.
pub mod Types
pub mod Time
pub mod Host
pub mod Contract
pub mod Quorum
pub mod Voting
pub mod Admission
pub mod Outcome
pub mod Registry
pub mod Policy
pub mod Chain
mod Sample
mod Tests
