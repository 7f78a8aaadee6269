-- ===== src/Auth.antt =====
-- Accounts, login, sessions and invitations: source/internal/auth/store.go and account_security.go.
pub mod State
pub mod Accounts
pub mod LastOwner
pub mod Race
pub mod Totp
pub mod Login
pub mod LoginLaws
pub mod RateLimit
pub mod Sessions
pub mod SessionLaws
pub mod Invitations
pub mod InvitationLaws
pub mod InvitationRoles
pub mod NameLaws
mod Tests
