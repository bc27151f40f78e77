-- ===== src/Box.antt =====
-- vp/vp_box_lock.py
pub mod Locks
pub mod Rounds
pub mod Holders
pub mod Waiting
pub mod Covers
pub mod Clean
pub mod Taking
