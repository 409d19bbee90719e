-- ===== src/Operator.antt =====
-- The Kubernetes operator: operator.
pub mod Engine
pub mod Sync
pub mod Budget
pub mod Scaling
pub mod Types
pub mod Controller
pub mod Address
mod Tests
