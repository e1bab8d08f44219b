-- ===== src/Guard.antt =====
-- internal/guard: the checks of new code against the known symbols.
pub mod Types
pub mod Lang
pub mod Known
pub mod Scanner
pub mod DroppedImport
pub mod StagedDiff
pub mod Validate
pub mod Lines
mod Tests
