-- ===== src/Generator.antt =====
-- internal/generator: from a config to manifests, and their order in the output.
pub mod ServiceAccounts
pub mod Order
pub mod Merge
pub mod Pod
pub mod Kubernetes
pub mod CronJobs
pub mod Routes
pub mod Container
pub mod PodSpec
pub mod WorkloadParts
pub mod Workloads
pub mod Resources
pub mod Generate
