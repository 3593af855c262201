-- ===== src/AccessFilter.antt =====
-- node/backend/internal/services/filesystem/access_filter.go and access_filter_entry.go: how a node
-- applies a policy context to the entries of a mount.
mod Tests
pub mod Decide
pub mod Tree
pub mod Laws
pub mod TreeLaws
