-- ===== src/Instances.antt =====
-- pkg/app/instances: the manager's interface (instances.go) and its two implementations.
mod Defs
pub mod TargetLink
pub mod Gce
pub mod HostClient
pub mod Local
pub use Defs.{
  GcpInstance, HostInstance, CreateHostRequest, Operation, OpResult, empty, created,
  ListHostsRequest, ListHostsResponse, NetHostClient, InstanceManager,
}
