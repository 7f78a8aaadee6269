-- ===== src/Instance.antt =====
-- The servers and their directory names: source/internal/instance/instance.go.
pub mod Slug
pub mod SlugLaws
pub mod SlugPaths
mod Tests
