-- ===== src/Lbf.antt =====
-- The queue discipline of lbf/src/linux/sch_lbf.c.
pub mod Delay
pub mod Store
pub mod Queue
pub mod Ranges
pub mod Stock
pub mod Search
pub mod Enqueue
pub mod Dequeue
pub mod First
pub mod Control
mod Tests
