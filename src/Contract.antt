-- ===== src/Contract.antt =====
-- internal/contract/contract.go: edit-scope contracts. A contract file lists globs, and the last
-- glob that matches a path decides whether the path is in scope.
pub mod Types
pub mod Glob
pub mod Scope
pub mod Parse
mod Tests
