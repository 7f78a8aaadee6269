-- ===== src/Paths.antt =====
-- Paths and their containment: source/internal/security/security.go.
pub mod Clean
pub mod CleanLaws
pub mod Root
pub mod RootLaws
pub mod DirLaws
pub mod Eval
pub mod EvalLaws
mod Tests
