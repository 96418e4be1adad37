-- ===== src/Client.antt =====
-- pkg/client/client.go: the client of the orchestrator's API.
pub mod Requests
pub mod Service
pub mod Upload
pub mod Poll
