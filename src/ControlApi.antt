-- ===== src/ControlApi.antt =====
-- The control API: the handlers of apps/control-api/internal/handler over the tables that
-- apps/control-api/internal/db/migrations creates.
pub mod Tables
pub mod Database
pub mod Keys
pub mod Members
pub mod History
pub mod Frames
pub mod Routes
pub mod Login
pub mod Documents
pub mod Sample
pub mod Tests
pub mod Usage
pub mod Chunk
pub mod Deployments
pub mod Catalog
pub mod Lookups
pub mod Settings
pub mod Templates
pub mod Conversations
pub mod Webhooks
pub mod Peers
