-- ===== src/Payment.antt =====
-- The payment chaincode, chaincode/payment/payment.go. `Types` has its records and constants,
-- `Host` what the peer gives a transaction, `Contract` the three functions that write, `Queries`
-- those that only read. The other children hold the proofs.
pub mod Types
pub mod Host
pub mod Contract
pub mod Queries
pub mod Lifecycle
pub mod Chain
pub mod History
pub mod Effects
pub mod PrivateData
pub mod Injection
pub mod Sample
mod Tests
