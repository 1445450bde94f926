-- ===== src/Delegation.antt =====
-- internal/delegation: delegations of a person to an agent, and the tokens that carry them.
pub mod Records
pub mod Tokens
pub mod Checked
pub mod Revoked
pub mod Creation
pub mod Timely
pub mod Created
pub mod Kept
mod Examples
mod CreationExamples
