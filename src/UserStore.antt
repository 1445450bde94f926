-- ===== src/UserStore.antt =====
-- internal/userstore: the profile of the local user, and the PIN that guards it.
pub mod Derive
pub mod Profiles
pub mod Blocks
pub mod Pins
mod Examples
