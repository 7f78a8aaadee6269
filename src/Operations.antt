-- ===== src/Operations.antt =====
-- Long-running operations and the lock that serializes them: source/internal/operations/operations.go.
pub mod Lock
pub mod LockLaws
pub mod Store
pub mod StoreLaws
mod Tests
