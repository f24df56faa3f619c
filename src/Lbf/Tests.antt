-- ===== src/Lbf/Tests.antt =====
-- Runs of the queue discipline on a small store.
pub mod Data
mod Queues
mod Times
mod Whole
mod Settings
