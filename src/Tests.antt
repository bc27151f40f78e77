-- ===== src/Tests.antt =====
-- The theorems on concrete inputs, and the stores, locks and gates that these are.
mod Runs
mod Launches
mod Completions
mod Samples
mod Histories
mod Verbs
mod Boxes
mod Gates
mod Promotion
mod Messages
mod Clauses
mod Commit
mod Alarms
mod Waiters
