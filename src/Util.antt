-- ===== src/Util.antt =====
-- src/util: what the other parts run on.
pub mod Pool
pub mod Registry
pub mod MappedFile
