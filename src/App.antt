-- ===== src/App.antt =====
-- pkg/app/app.go: the web API of the cloud orchestrator.
pub mod Defs
pub mod Random
pub mod Sessions
pub mod Credentials
pub mod Oauth
pub mod Hosts
pub mod Server
