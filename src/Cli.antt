-- ===== src/Cli.antt =====
-- pkg/cli: the command line's connections to virtual devices, its selections and its printing.
pub mod Locators
pub mod Connections
pub mod Forwarder
pub mod Agent
pub mod Logs
pub mod Adb
pub mod Selection
pub mod Console
pub mod Service
pub mod Args
pub mod Commands
pub mod LocalBuild
pub mod Creation
pub mod Listings
