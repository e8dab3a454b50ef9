-- ===== src/Desk.antt =====
-- crates/korg-core: the desk of nodes that the schedules, the awaiting lane and the work items share.
pub mod Tables
pub mod Postgres
pub mod Log
pub mod Select
pub mod Template
pub mod Awaiting
pub mod Schedules
pub mod AreaEdits
pub mod WorkItems
pub mod Filing
pub mod Keeps
pub mod Steps
pub mod Flow
mod Tests
mod Runs
mod FlowRuns
