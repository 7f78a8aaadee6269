-- ===== src/Http.antt =====
-- Who gets through to a handler: source/internal/app/http.go.
pub mod Gate
pub mod GateLaws
mod Tests
