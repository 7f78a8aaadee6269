-- ===== src/Hub.antt =====
-- The WebSocket hub: source/internal/websocket/hub.go.
pub mod Clients
pub mod Laws
pub mod Cadence
mod Tests
