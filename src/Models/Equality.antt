-- ===== src/Models/Equality.antt =====
-- Python's `is` and `==` on the members of the enumerations.
use message_router.Prelude.{ℕ, ◌≡◌, ◌↔◌, true, arith, Comparable, nat_beq}
use message_router.Models.Enums.{
  TeamKind, MembershipRole, LifecycleStatus, CaseStatus, WaitingOn, IssueStatusUpdateState,
  CaseEntryKind, EntrySide, MessageIntent, PartKind, DeliveryDestination, DeliveryStatus,
  DeliveryItemStatus,
}

abbrev team_kind_index : TeamKind → ℕ
team_kind_index TeamKind.consult_queue = 0
team_kind_index TeamKind.dev = 1

pub team_kind_beq_iff :
    (a b : TeamKind) → (nat_beq (team_kind_index a) (team_kind_index b) ≡ true) ↔ (a ≡ b)
team_kind_beq_iff a b = ground arith

instance abbrev pub team_kind_eq : Comparable TeamKind
team_kind_eq = record {
  equal = λ a b. nat_beq (team_kind_index a) (team_kind_index b);
  equal_iff = team_kind_beq_iff;
}

abbrev membership_role_index : MembershipRole → ℕ
membership_role_index MembershipRole.member = 0
membership_role_index MembershipRole.admin = 1

pub membership_role_beq_iff :
    (a b : MembershipRole)
    → (nat_beq (membership_role_index a) (membership_role_index b) ≡ true) ↔ (a ≡ b)
membership_role_beq_iff a b = ground arith

instance abbrev pub membership_role_eq : Comparable MembershipRole
membership_role_eq = record {
  equal = λ a b. nat_beq (membership_role_index a) (membership_role_index b);
  equal_iff = membership_role_beq_iff;
}

abbrev lifecycle_status_index : LifecycleStatus → ℕ
lifecycle_status_index LifecycleStatus.opened = 0
lifecycle_status_index LifecycleStatus.closed = 1

pub lifecycle_status_beq_iff :
    (a b : LifecycleStatus)
    → (nat_beq (lifecycle_status_index a) (lifecycle_status_index b) ≡ true) ↔ (a ≡ b)
lifecycle_status_beq_iff a b = ground arith

instance abbrev pub lifecycle_status_eq : Comparable LifecycleStatus
lifecycle_status_eq = record {
  equal = λ a b. nat_beq (lifecycle_status_index a) (lifecycle_status_index b);
  equal_iff = lifecycle_status_beq_iff;
}

abbrev case_status_index : CaseStatus → ℕ
case_status_index CaseStatus.pending_confirmation = 0
case_status_index CaseStatus.in_progress = 1
case_status_index CaseStatus.waiting_customer = 2
case_status_index CaseStatus.closed = 3
case_status_index CaseStatus.suspended = 4

pub case_status_beq_iff :
    (a b : CaseStatus) → (nat_beq (case_status_index a) (case_status_index b) ≡ true) ↔ (a ≡ b)
case_status_beq_iff a b = ground arith

instance abbrev pub case_status_eq : Comparable CaseStatus
case_status_eq = record {
  equal = λ a b. nat_beq (case_status_index a) (case_status_index b);
  equal_iff = case_status_beq_iff;
}

abbrev waiting_on_index : WaitingOn → ℕ
waiting_on_index WaitingOn.consult = 0
waiting_on_index WaitingOn.dev = 1
waiting_on_index WaitingOn.none = 2

pub waiting_on_beq_iff :
    (a b : WaitingOn) → (nat_beq (waiting_on_index a) (waiting_on_index b) ≡ true) ↔ (a ≡ b)
waiting_on_beq_iff a b = ground arith

instance abbrev pub waiting_on_eq : Comparable WaitingOn
waiting_on_eq = record {
  equal = λ a b. nat_beq (waiting_on_index a) (waiting_on_index b);
  equal_iff = waiting_on_beq_iff;
}

abbrev issue_status_update_state_index : IssueStatusUpdateState → ℕ
issue_status_update_state_index IssueStatusUpdateState.pending = 0
issue_status_update_state_index IssueStatusUpdateState.processing = 1
issue_status_update_state_index IssueStatusUpdateState.completed = 2
issue_status_update_state_index IssueStatusUpdateState.cancelled = 3

pub issue_status_update_state_beq_iff :
    (a b : IssueStatusUpdateState)
    → (nat_beq (issue_status_update_state_index a) (issue_status_update_state_index b) ≡ true)
      ↔ (a ≡ b)
issue_status_update_state_beq_iff a b = ground arith

instance abbrev pub issue_status_update_state_eq : Comparable IssueStatusUpdateState
issue_status_update_state_eq = record {
  equal = λ a b. nat_beq (issue_status_update_state_index a) (issue_status_update_state_index b);
  equal_iff = issue_status_update_state_beq_iff;
}

abbrev case_entry_kind_index : CaseEntryKind → ℕ
case_entry_kind_index CaseEntryKind.formal_message = 0
case_entry_kind_index CaseEntryKind.transfer_consultant = 1
case_entry_kind_index CaseEntryKind.transfer_developer = 2
case_entry_kind_index CaseEntryKind.transfer_dev_team = 3
case_entry_kind_index CaseEntryKind.closed = 4
case_entry_kind_index CaseEntryKind.reopened = 5
case_entry_kind_index CaseEntryKind.status_changed = 6
case_entry_kind_index CaseEntryKind.correction = 7
case_entry_kind_index CaseEntryKind.case_metadata_updated = 8

pub case_entry_kind_beq_iff :
    (a b : CaseEntryKind)
    → (nat_beq (case_entry_kind_index a) (case_entry_kind_index b) ≡ true) ↔ (a ≡ b)
case_entry_kind_beq_iff a b = ground arith

instance abbrev pub case_entry_kind_eq : Comparable CaseEntryKind
case_entry_kind_eq = record {
  equal = λ a b. nat_beq (case_entry_kind_index a) (case_entry_kind_index b);
  equal_iff = case_entry_kind_beq_iff;
}

abbrev entry_side_index : EntrySide → ℕ
entry_side_index EntrySide.consult = 0
entry_side_index EntrySide.dev = 1
entry_side_index EntrySide.system = 2

pub entry_side_beq_iff :
    (a b : EntrySide) → (nat_beq (entry_side_index a) (entry_side_index b) ≡ true) ↔ (a ≡ b)
entry_side_beq_iff a b = ground arith

instance abbrev pub entry_side_eq : Comparable EntrySide
entry_side_eq = record {
  equal = λ a b. nat_beq (entry_side_index a) (entry_side_index b);
  equal_iff = entry_side_beq_iff;
}

abbrev message_intent_index : MessageIntent → ℕ
message_intent_index MessageIntent.handoff = 0
message_intent_index MessageIntent.sync = 1

pub message_intent_beq_iff :
    (a b : MessageIntent)
    → (nat_beq (message_intent_index a) (message_intent_index b) ≡ true) ↔ (a ≡ b)
message_intent_beq_iff a b = ground arith

instance abbrev pub message_intent_eq : Comparable MessageIntent
message_intent_eq = record {
  equal = λ a b. nat_beq (message_intent_index a) (message_intent_index b);
  equal_iff = message_intent_beq_iff;
}

abbrev part_kind_index : PartKind → ℕ
part_kind_index PartKind.text = 0
part_kind_index PartKind.image = 1

pub part_kind_beq_iff :
    (a b : PartKind) → (nat_beq (part_kind_index a) (part_kind_index b) ≡ true) ↔ (a ≡ b)
part_kind_beq_iff a b = ground arith

instance abbrev pub part_kind_eq : Comparable PartKind
part_kind_eq = record {
  equal = λ a b. nat_beq (part_kind_index a) (part_kind_index b);
  equal_iff = part_kind_beq_iff;
}

abbrev delivery_destination_index : DeliveryDestination → ℕ
delivery_destination_index DeliveryDestination.user = 0
delivery_destination_index DeliveryDestination.chat = 1

pub delivery_destination_beq_iff :
    (a b : DeliveryDestination)
    → (nat_beq (delivery_destination_index a) (delivery_destination_index b) ≡ true) ↔ (a ≡ b)
delivery_destination_beq_iff a b = ground arith

instance abbrev pub delivery_destination_eq : Comparable DeliveryDestination
delivery_destination_eq = record {
  equal = λ a b. nat_beq (delivery_destination_index a) (delivery_destination_index b);
  equal_iff = delivery_destination_beq_iff;
}

abbrev delivery_status_index : DeliveryStatus → ℕ
delivery_status_index DeliveryStatus.pending = 0
delivery_status_index DeliveryStatus.sent = 1
delivery_status_index DeliveryStatus.failed = 2

pub delivery_status_beq_iff :
    (a b : DeliveryStatus)
    → (nat_beq (delivery_status_index a) (delivery_status_index b) ≡ true) ↔ (a ≡ b)
delivery_status_beq_iff a b = ground arith

instance abbrev pub delivery_status_eq : Comparable DeliveryStatus
delivery_status_eq = record {
  equal = λ a b. nat_beq (delivery_status_index a) (delivery_status_index b);
  equal_iff = delivery_status_beq_iff;
}

abbrev delivery_item_status_index : DeliveryItemStatus → ℕ
delivery_item_status_index DeliveryItemStatus.pending = 0
delivery_item_status_index DeliveryItemStatus.sent = 1
delivery_item_status_index DeliveryItemStatus.failed = 2

pub delivery_item_status_beq_iff :
    (a b : DeliveryItemStatus)
    → (nat_beq (delivery_item_status_index a) (delivery_item_status_index b) ≡ true) ↔ (a ≡ b)
delivery_item_status_beq_iff a b = ground arith

instance abbrev pub delivery_item_status_eq : Comparable DeliveryItemStatus
delivery_item_status_eq = record {
  equal = λ a b. nat_beq (delivery_item_status_index a) (delivery_item_status_index b);
  equal_iff = delivery_item_status_beq_iff;
}
