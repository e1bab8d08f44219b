-- ===== src/Hook.antt =====
-- cmd/runecho-guard: the hook that is asked before an edit and decides whether to ask the user.
pub mod Payload
pub mod Clock
pub mod Learned
pub mod Seeds
pub mod Store
pub mod Scope
pub mod Definitions
pub mod Lookup
pub mod Log
pub mod Findings
pub mod Decision
pub mod Precommit
mod Samples
mod Tests
