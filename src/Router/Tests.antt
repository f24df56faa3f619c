-- ===== src/Router/Tests.antt =====
-- Runs of the XDP program on small frames.
pub mod Frames
mod Runs
