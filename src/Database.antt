-- ===== src/Database.antt =====
-- pkg/app/database/database.go and pkg/app/session/session.go: what the application stores, and
-- the interface through which it does. The implementations are the modules below.
mod Defs
pub mod Memory
pub mod Spanner
pub mod Refinement
pub mod Contract
pub use Defs.{Bytes, Session, DatabaseService}
