-- ===== src/State.antt =====
-- node/backend/internal/infra/state: the durable jobs of a node, their plans and authorizations.
pub mod Tests
pub mod Entities
pub mod Tables
pub mod Transaction
pub mod Secured
pub mod Jobs
pub mod Plans
pub mod Leases
pub mod Claims
