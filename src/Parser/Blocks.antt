-- ===== src/Parser/Blocks.antt =====
-- internal/parser: the parse functions, one for each type of block, on the interface of HCL.
pub mod Pod
pub mod Volumes
pub mod Probes
pub mod Containers
pub mod Services
pub mod Ingress
pub mod Deployments
pub mod DaemonSets
pub mod StatefulSets
pub mod CronJobs
pub mod Data
pub mod Rbac
pub mod Crds
pub mod Files
pub mod Environment
pub mod CrdVersions
pub mod Loops
