-- ===== src/Importer.antt =====
-- internal/importer: what is written of a cluster's resources as .kdef blocks.
pub mod Duration
pub mod Groups
pub mod Resources
