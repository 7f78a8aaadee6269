-- ===== src/ConsolePages.antt =====
-- The pages of console history: source/internal/app/console_history.go.
pub mod History
pub mod Tail
pub mod TailLaws
mod Tests
