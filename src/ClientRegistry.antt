-- ===== src/ClientRegistry.antt =====
-- internal/clientregistry: the registry of OIDC clients.
pub mod Clients
pub mod Secrets
mod Examples
