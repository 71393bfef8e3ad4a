-- ===== src/Budget.antt =====
-- Token budgets: src/rtk_hermes_plus/token_budget.py, the gates of enhancements.py and the chat target's
-- budget (chat_target.py).
pub mod Models
pub mod Measure
pub mod Stability
pub mod Gates
pub mod Reduction
pub mod Compaction
pub mod Omissions
pub mod Pressure
pub mod Tail
