-- ===== src/Archive.antt =====
-- The extraction of archives: source/internal/files/archive.go.
pub mod Entries
pub mod Extract
pub mod Laws
pub mod Budget
mod Tests
