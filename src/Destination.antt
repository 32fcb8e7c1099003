-- ===== src/Destination.antt =====
-- internal/destination: what one export destination keeps.
pub mod Error
pub mod WriteClass
pub mod Ledger
pub mod Config
pub mod State
mod Runs
