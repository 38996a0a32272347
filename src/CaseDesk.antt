-- ===== src/CaseDesk.antt =====
-- src/kefu/case_desk/service.py: the commands of the case desk, over the tables.
pub mod Commands
pub mod Common
pub mod Timeline
pub mod Recorded
pub mod Outgoing
pub mod Workflow
pub mod Deadlines
pub mod Metadata
pub mod Transfers
pub mod Speakers
pub mod Messages
pub mod CreationChecks
pub mod Creation
pub mod Corrections
pub mod Outbox
pub mod Leasing
pub mod Deferred
pub mod StatusJobs
pub mod Execute
pub mod Versions
pub mod Authorization
pub mod Invariants
pub mod System
