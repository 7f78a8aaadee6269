-- ===== src/Authorization.antt =====
-- Roles, permissions and the fixed role hierarchy: source/internal/authorization/authorization.go.
-- `Role` and `Permission` are Go string types, so any text is a value of them. A map that the code
-- reads with `m[k]` and whose values are `true` is the list of its keys.
mod Names
mod Catalog
mod Rank
pub mod Hierarchy
pub mod Defaults
mod Tests
unfoldable pub use Names.*
unfoldable pub use Catalog.*
unfoldable pub use Rank.*
