-- ===== src/Alerts.antt =====
-- vp/vpalerts.py
pub mod Signals
pub mod Severity
pub mod Trimming
pub mod Tiers
