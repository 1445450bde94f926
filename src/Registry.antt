-- ===== src/Registry.antt =====
-- The files that internal/agentregistry, internal/clientregistry and internal/policy keep: the code
-- that the three packages share, over what is different in each of them.
pub mod Store
pub mod Ids
pub mod Loading
pub mod Changes
