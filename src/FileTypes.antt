-- ===== src/FileTypes.antt =====
-- control/internal/filetypes (node/backend/internal/filetypes is the same text): the file type
-- selectors, and the policy context that a node evaluates for each entry.
pub mod Tests
pub mod Selector
pub mod Context
pub mod Evaluate
