-- ===== src/CaseDesk/Invariants.antt =====
-- What an invariant of the tables has to promise, so that every command of the case desk keeps it.
pub mod Stable
pub mod Steps
pub mod Deliveries
pub mod States
pub mod Columns
pub mod Creations
pub mod Posts
pub mod Reports
pub mod Worker
pub mod Evaluations
pub mod Commands
pub mod AppendOnly
pub mod Lifecycle
pub mod Organization
