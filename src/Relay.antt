-- ===== src/Relay.antt =====
-- The relay that connects peers' machines to the gateway: apps/peer-relay/internal/relay.
pub mod Hub
pub mod Session
pub mod Handler
pub mod Store
pub mod Registry
pub mod Repeated
pub mod Laws
mod Tests
