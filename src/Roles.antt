-- ===== src/Roles.antt =====
-- The role permission overrides that the app stores: source/internal/app/role_permissions.go.
pub mod State
pub mod Handler
pub mod Update
pub mod Effective
pub mod Validate
pub mod Saved
pub mod Outcome
pub mod Success
mod Tests
pub mod Dependencies
