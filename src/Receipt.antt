-- ===== src/Receipt.antt =====
-- Receipts, internal/receipt: their hash, the builder and the verifier.
pub mod Types
pub mod Host
pub mod Build
pub mod Endorsement
pub mod Verify
pub mod Verdict
pub mod Tamper
pub mod Policy
pub mod Sample
mod Tests
