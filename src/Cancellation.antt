-- ===== src/Cancellation.antt =====
-- The cancellation signal, `CancellationToken` of src/rtk_hermes_plus/cancellation.py.
pub mod Token
pub mod Runs
pub mod Wakes
