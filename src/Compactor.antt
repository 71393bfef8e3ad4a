-- ===== src/Compactor.antt =====
-- The context compactor, `ContextCompactor` of src/rtk_hermes_plus/context_compactor.py.
pub mod Turns
pub mod Vaulting
pub mod Collapse
pub mod Request
pub mod Starts
pub mod Reduction
pub mod Tail
pub mod Folding
pub mod Exactness
pub mod Rounds
pub mod NoTail
pub mod Delivery
