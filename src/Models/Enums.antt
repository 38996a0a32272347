-- ===== src/Models/Enums.antt =====
-- The enumerations of src/kefu/persistence/models.py.
pub data TeamKind : Type 0 where
  consult_queue dev : TeamKind

pub data MembershipRole : Type 0 where
  member admin : MembershipRole

-- `OPEN`: the word `open` is reserved here.
pub data LifecycleStatus : Type 0 where
  opened closed : LifecycleStatus

pub data CaseStatus : Type 0 where
  pending_confirmation in_progress waiting_customer closed suspended : CaseStatus

pub data DeadlineStatus : Type 0 where
  approaching overdue : DeadlineStatus

pub data WaitingOn : Type 0 where
  consult dev none : WaitingOn

pub data CasePriority : Type 0 where
  normal urgent severe : CasePriority

pub data IssueStatusUpdateState : Type 0 where
  pending processing completed cancelled : IssueStatusUpdateState

pub data CaseEntryKind : Type 0 where
  formal_message transfer_consultant transfer_developer transfer_dev_team : CaseEntryKind
  closed reopened status_changed correction case_metadata_updated : CaseEntryKind

pub data EntrySide : Type 0 where
  consult dev system : EntrySide

pub data MessageIntent : Type 0 where
  handoff sync : MessageIntent

pub data PartKind : Type 0 where
  text image : PartKind

pub data DeliveryDestination : Type 0 where
  user chat : DeliveryDestination

pub data DeliveryStatus : Type 0 where
  pending sent failed : DeliveryStatus

pub data DeliveryItemStatus : Type 0 where
  pending sent failed : DeliveryItemStatus
