-- ===== src/HttpApi.antt =====
-- internal/httpapi/server.go: the lookup API.
pub mod Server
pub mod Actions
pub mod ClientIp
pub mod Handlers
pub mod Routes
pub mod Answered
pub mod Ends
pub mod Audited
pub mod RouteEnds
pub mod Served
pub mod Denied
pub mod Limits
