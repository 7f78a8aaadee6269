-- ===== src/Minecraft.antt =====
-- The players and the properties of a Minecraft server: source/internal/minecraft/players.go.
pub mod Commands
pub mod CommandLaws
pub mod PlayerLaws
pub mod Properties
pub mod PropertyLaws
pub mod WriteLaws
mod Tests
