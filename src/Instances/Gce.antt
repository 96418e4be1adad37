-- ===== src/Instances/Gce.antt =====
-- pkg/app/instances/gce.go: the instance manager of Google Compute Engine. The Compute client
-- library is the parameter `ComputeApi`, over an unknown state of the cloud.
pub mod Defs
pub mod Results
pub mod Hosts
pub mod Laws
pub mod Waiting
pub use Hosts.{gce_instance_manager}
