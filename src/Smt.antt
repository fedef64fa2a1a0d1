-- ===== src/Smt.antt =====
-- The multithreaded pipeline of sim-outorder.c and smt.h.
pub mod Ring
pub mod State
pub mod Cap
pub mod Operands
pub mod Rename
pub mod Commit
pub mod Waiting
pub mod Issue
pub mod Invariant
pub mod Queues
pub mod Counting
pub mod Update
pub mod Writeback
pub mod Refresh
pub mod Owners
pub mod Run
mod Tests
