-- ===== src/Rbac.antt =====
-- control/internal/rbac: the control tower's policy evaluation.
mod Tests
pub mod Path
pub mod Policy
pub mod Evaluate
pub mod Scope
pub mod Compat
pub mod Typed
pub mod Matching
pub mod Approval
