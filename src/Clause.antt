-- ===== src/Clause.antt =====
-- vp/vpclause.py
pub mod Classify
pub mod Answerable
