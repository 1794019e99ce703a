-- ===== src/Parsec/Invariant.antt =====
-- The invariant of the cores of one `struct parsec`.
pub mod Defs
pub mod Update
pub mod Round
pub mod Section
pub mod Time
