-- ===== src/Compiler.antt =====
-- The request compiler, `RequestCompiler` of src/rtk_hermes_plus/compiler.py.
pub mod Slots
pub mod Request
pub mod Reduction
pub mod Names
