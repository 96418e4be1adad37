-- ===== src/Tests.antt =====
-- Concrete runs of the application, the instance managers and the client.
mod Fixtures
mod Logins
mod Credentials
mod Handlers
mod Clouds
mod Clients
mod Forwarders
mod Signalings
mod Agents
mod Commands
mod Databases
