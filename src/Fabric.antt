-- ===== src/Fabric.antt =====
-- The gateway's client of Fabric, internal/fabric.
pub mod Types
pub mod Host
pub mod Client
pub mod Retry
pub mod Query
pub mod Extractor
pub mod Endorsers
pub mod Policies
pub mod Submit
mod Tests
