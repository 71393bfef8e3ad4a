-- ===== src/Guards.antt =====
-- The vetoes of src/rtk_hermes_plus/context_safety.py on texts and messages.
pub mod Patterns
pub mod Messages
