-- ===== src/Supervisor.antt =====
-- The owner of the Minecraft process: source/internal/supervisor/supervisor.go.
pub mod History
pub mod Run
pub mod RunLaws
pub mod Suppress
pub mod SuppressLaws
pub mod ConsoleText
pub mod Console
pub mod ConsoleReads
pub mod ConsoleShows
pub mod ConsoleLaws
mod Tests
