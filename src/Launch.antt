-- ===== src/Launch.antt =====
-- ci/control/orchestration_control.py, ci/control/review_gate.py
pub mod Check
pub mod Schema
pub mod World
pub mod Paths
pub mod Journal
pub mod Sessions
pub mod Chain
pub mod Ancestors
pub mod ReviewGate
pub mod Readiness
pub mod Rows
pub mod Acceptance
pub mod Setup
pub mod Claiming
pub mod Work
pub mod Repair
pub mod Contamination
pub mod Migrations
pub mod Candidates
pub mod Verify
pub mod Commands
pub mod Ensures
pub mod Life
pub mod Changes
pub mod Rule
pub mod KeepWork
pub mod KeepRepair
pub mod Preserve
pub mod Apart
pub mod Rowwise
pub mod Progress
pub mod Steps
pub mod Numbers
pub mod Distinct
pub mod Refreshing
pub mod Current
pub mod Accepting
pub mod Independent
pub mod Outbox
