-- ===== src/Cmd.antt =====
-- The command kufichain, cmd/kufichain: what it makes of the peers that it knows.
pub mod Known
pub mod Members
pub mod Agreement
mod Tests
