-- ===== src/Parser.antt =====
-- internal/parser: the blocks of a file, and the checks of what they are parsed to. HCL itself is a
-- library's.
pub mod Hcl
pub mod Blocks
pub mod FileResult
pub mod Duplicates
pub mod Namespaces
pub mod Ingresses
pub mod References
pub mod Overrides
pub mod Root
pub mod Loop
