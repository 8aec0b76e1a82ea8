-- ===== src/AdminHttp.antt =====
-- internal/adminhttp/server.go: the control plane for the managed keys, behind Cloudflare Access.
pub mod Server
pub mod Actions
pub mod Handlers
pub mod Routes
pub mod Verdicts
pub mod Effects
pub mod Checks
pub mod Mutations
pub mod Outcomes
pub mod Guarded
pub mod Refreshed
pub mod Promises
pub mod Issues
pub mod Tokens
