-- ===== src/Authz.antt =====
-- internal/authz: the storage-independent authorization model and its evaluator.
pub mod Model
pub mod Grants
pub mod GrantSet
pub mod Evaluate
pub mod Sets
pub mod Termination
pub mod Active
pub mod Decisions
pub mod Reasons
pub mod Attenuation
pub mod Stopped
pub mod Service
mod Examples
