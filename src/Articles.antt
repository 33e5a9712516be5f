-- ===== src/Articles.antt =====
-- Articles: what is left of one that is removed (Tombstone).
pub mod Tombstone
mod Tests
