-- ===== src/SignedAuth.antt =====
-- node/backend/internal/signedauth (control/internal/signedauth is the same but for an import): signed,
-- short-lived authorization contexts. Signatures, digests and encodings are parameters.
pub mod Tests
pub mod Binding
pub mod Verify
pub mod Uploads
pub mod Lease
pub mod Laws
pub mod Purposes
