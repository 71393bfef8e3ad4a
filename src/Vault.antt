-- ===== src/Vault.antt =====
-- The private artifact vault, `TokenTerminatorStore` of src/rtk_hermes_plus/storage.py.
pub mod Tables
pub mod Put
pub mod Rows
pub mod Pruning
pub mod Eviction
pub mod Invariant
pub mod Writes
pub mod Recovery
pub mod Refusal
pub mod Reads
pub mod Leases
pub mod Pages
pub mod Savings
