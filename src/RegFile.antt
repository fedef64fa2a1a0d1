-- ===== src/RegFile.antt =====
-- The physical register files of regrename.c.
mod Tests
pub mod RegSet
pub mod Physical
