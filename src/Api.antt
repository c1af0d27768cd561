-- ===== src/Api.antt =====
-- The gateway's HTTP layer, internal/api. A `time.Time` is its number of nanoseconds, and a
-- method takes the time that its `time.Now()` returns.
pub mod Models
pub mod Convert
pub mod Nonces
pub mod Idempotency
pub mod Stores
pub mod RateLimit
pub mod WorkerPool
pub mod ApiKey
pub mod Files
pub mod Gateway
mod Tests
