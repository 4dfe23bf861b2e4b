-- ===== src/Flux.antt =====
-- flux-controller: the reconciler that renders a source with kdef and applies it to a cluster.
pub mod Release
pub mod Resources
pub mod Apply
pub mod Prune
pub mod Recording
pub mod Source
pub mod Reconcile
