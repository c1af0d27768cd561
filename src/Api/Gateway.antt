-- ===== src/Api/Gateway.antt =====
-- internal/api/handlers.go: the handlers of the HTTP API.
pub mod Host
pub mod Requests
pub mod Submit
pub mod Gate
pub mod Runs
pub mod Replays
pub mod Repeats
pub mod Submissions
pub mod Receipts
pub mod Observe
pub mod PrivateData
pub mod Sample
mod Tests
