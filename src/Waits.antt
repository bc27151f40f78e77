-- ===== src/Waits.antt =====
-- pglock.py, the runs that wait for the lock of the postgres server.
pub mod Verdict
pub mod Population
pub mod Stalled
