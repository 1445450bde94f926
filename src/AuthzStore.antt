-- ===== src/AuthzStore.antt =====
-- internal/authzstore: the file store of applications, authorization requests and grants.
pub mod Types
pub mod Normalize
pub mod Validate
pub mod Store
pub mod Saving
pub mod History
pub mod Approval
pub mod Decision
pub mod Revocation
mod Examples
