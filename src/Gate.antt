-- ===== src/Gate.antt =====
-- autogate.py
pub mod Words
pub mod Decide
pub mod Launch
pub mod Rework
