-- ===== src/Views.antt =====
-- Views of one artifact, src/rtk_hermes_plus/recovery_views.py: a synopsis and a search.
pub mod Clip
pub mod Find
pub mod Peek
pub mod Search
