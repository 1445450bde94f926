-- ===== src/Policy.antt =====
-- internal/policy: the access policies by method, path, agent and scope.
pub mod Rules
pub mod Evaluate
pub mod Order
pub mod Slashes
pub mod Matching
pub mod Decisions
pub mod Normal
pub mod Store
pub mod Files
mod Examples
