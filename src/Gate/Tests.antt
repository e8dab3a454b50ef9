-- ===== src/Gate/Tests.antt =====
-- Runs of crates/korg-gate at concrete inputs.
pub mod Samples
mod StoreRuns
mod OauthRuns
mod ProxyRuns
