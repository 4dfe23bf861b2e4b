-- ===== src/Types.antt =====
-- internal/types: the configuration that the parser builds and the generator reads. An optional
-- pointer is an `Option`, a string map a `Dict`, and an integer of any width a `ℤ`.
pub mod Ingress
pub mod Hosts
pub mod Pod
pub mod Workloads
pub mod Resources
pub mod Config
pub use Ingress.{IngressConfig, IngressDefaults}
pub use Pod.*
pub use Workloads.*
pub use Resources.*
pub use Config.*
