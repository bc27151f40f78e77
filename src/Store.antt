-- ===== src/Store.antt =====
-- vp/vpstore.py
pub mod Status
pub mod Schema
pub mod Tx
pub mod Log
pub mod ItemRows
pub mod Runs
pub mod Packets
pub mod Items
pub mod Findings
pub mod Turns
pub mod Unions
pub mod Traffic
pub mod Reviews
pub mod Promotions
pub mod Keeps
pub mod Rule
pub mod Commands
pub mod Preserve
pub mod Lookup
pub mod Lifecycle
pub mod SingleTurn
pub mod Terminal
pub mod Refusals
pub mod Outcome
pub mod PauseResume
pub mod Grading
pub mod Claiming
pub mod Success
pub mod Promotable
pub mod Matrix
pub mod MovedRef
