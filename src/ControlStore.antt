-- ===== src/ControlStore.antt =====
-- control/internal/store: the SQL store of the control tower
pub mod Entities
pub mod Sql
pub mod Audit
pub mod Pending
pub mod Shares
pub mod Usage
pub mod Temporary
pub mod Enrollment
mod Tests
