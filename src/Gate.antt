-- ===== src/Gate.antt =====
-- crates/korg-gate: the OAuth-gated front door.
pub mod Allowlist
pub mod Door
pub mod Json
pub mod Config
pub mod Headers
pub mod Routing
pub mod Rewrite
pub mod Filter
pub mod Proxy
pub mod State
pub mod Clients
pub mod Grants
pub mod Lock
pub mod Oauth
pub mod Server
pub mod Tests
