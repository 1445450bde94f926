-- ===== src/LocalDev.antt =====
-- internal/localdev: the local identity server, its relying parties, and the endpoints for agents.
pub mod State
pub mod Http
pub mod Provider
pub mod Tokens
pub mod Codes
pub mod Entitled
pub mod Single
pub mod Flow
pub mod Refused
pub mod Serving
pub mod Relying
pub mod Demo
pub mod Protect
pub mod Proxy
pub mod Proxying
pub mod Guard
pub mod Headers
pub mod Replies
pub mod Evaluation
pub mod Requests
pub mod Deciding
pub mod Decided
pub mod Paths
pub mod Confirmed
pub mod Asked
pub mod Startup
pub mod Exchanged
pub mod SignedIn
pub mod Started
mod ProviderExamples
mod ProxyExamples
mod AgentExamples
mod SigninExamples
