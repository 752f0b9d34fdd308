-- ===== src/Tools.antt =====
-- tools/: the built-in tools, their base class and the registry.
pub mod Base
pub mod Schemas
pub mod Bash
pub mod FileRead
pub mod FileWrite
pub mod FileEdit
pub mod WebSearch
pub mod Registry
pub mod Handover
pub mod Safety
