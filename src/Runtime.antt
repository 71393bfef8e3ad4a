-- ===== src/Runtime.antt =====
-- The provider-bound request on its way through the plugin, `Runtime.llm_request_middleware` of
-- src/rtk_hermes_plus/plugin.py.
pub mod References
pub mod Middleware
pub mod Savings
pub mod Rows
