-- ===== src/Ops.antt =====
-- The network operations, internal/fabricops, as far as they decide something themselves.
pub mod Types
pub mod Host
pub mod Policy
pub mod Lifecycle
mod Tests
