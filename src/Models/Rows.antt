-- ===== src/Models/Rows.antt =====
-- The tables of src/kefu/persistence/models.py, one record for each.
use message_router.Prelude.{ℕ, Bool, Option, List, Text}
use message_router.Models.Enums.{
  TeamKind, MembershipRole, LifecycleStatus, CaseStatus, WaitingOn, CasePriority,
  IssueStatusUpdateState, CaseEntryKind, EntrySide, MessageIntent, PartKind, DeliveryDestination,
  DeliveryStatus, DeliveryItemStatus,
}

abbrev pub Uuid : Type 0
Uuid = ℕ

abbrev pub Moment : Type 0
Moment = ℕ

pub record User : Type 0 where
  pub id : Uuid
  pub wecom_userid : Text
  pub display_name : Text
  pub active : Bool
  pub is_global_admin : Bool

pub record Team : Type 0 where
  pub id : Uuid
  pub kind : TeamKind
  pub name : Text
  pub lead_display_name : Option Text
  pub active : Bool

pub record TeamMembership : Type 0 where
  pub team_id : Uuid
  pub user_id : Uuid
  pub role : MembershipRole
  pub valid_from : Moment
  pub valid_until : Option Moment

pub record WeComChannel : Type 0 where
  pub id : Uuid
  pub team_id : Uuid
  pub chatid : Text
  pub active : Bool
  pub initialized_at : Option Moment

pub record Case : Type 0 where
  pub id : Uuid
  pub case_ref : Text
  pub title : Text
  pub customer_name : Text
  pub customer_group_name : Option Text
  pub customer_contact_name : Option Text
  pub customer_contact_method : Option Text
  pub priority : CasePriority
  pub deadline : Moment
  pub approaching_window_minutes : ℕ
  pub lifecycle_status : LifecycleStatus
  pub status : CaseStatus
  pub waiting_on : WaitingOn
  pub consult_queue_id : Uuid
  pub current_consultant_id : Option Uuid
  pub consult_handler_name : Text
  pub current_dev_team_id : Uuid
  pub initial_acceptance_team_id : Option Uuid
  pub creator_id : Option Uuid
  pub related_case_id : Option Uuid
  pub issue_description : Option Text
  pub suspected_type : Option Text
  pub issue_current_situation : Option Text
  pub issue_current_status : Text
  pub bug_number : Option Text
  pub issue_source : Option Text
  pub initial_expires_at : Option Moment
  pub version : ℕ
  pub last_entry_sequence : ℕ
  pub created_at : Moment

-- One changed column, as `metadata_json["changes"]` records it.
pub data FieldChange : Type 0 where
  text_change : Text → Option Text → Option Text → FieldChange
  priority_change : CasePriority → CasePriority → FieldChange
  moment_change : Moment → Moment → FieldChange
  minutes_change : ℕ → ℕ → FieldChange

-- `metadata_json`, by the dictionaries that the service writes.
pub data EntryMetadata : Type 0 where
  action : Text → EntryMetadata
  changes : Option Text → List FieldChange → EntryMetadata
  status_change : CaseStatus → CaseStatus → EntryMetadata
  consultant_change : Option Text → Text → EntryMetadata
  dev_team_change : Uuid → Uuid → Text → Text → EntryMetadata
  reopened_to : WaitingOn → EntryMetadata
  corrected_to : Text → EntryMetadata
  corrected_from : Text → Text → EntryMetadata

pub record CaseEntry : Type 0 where
  pub id : Uuid
  pub case_id : Uuid
  pub sequence : ℕ
  pub kind : CaseEntryKind
  pub side : EntrySide
  pub actor_user_id : Option Uuid
  pub actor_name_snapshot : Text
  pub message_intent : Option MessageIntent
  pub source_msgid : Option Text
  pub corrects_entry_id : Option Uuid
  pub metadata : EntryMetadata

pub record CaseEntryPart : Type 0 where
  pub id : Uuid
  pub entry_id : Uuid
  pub position : ℕ
  pub kind : PartKind
  pub text : Option Text
  pub media_id : Option Uuid

pub record Delivery : Type 0 where
  pub id : Uuid
  pub entry_id : Uuid
  pub destination_type : DeliveryDestination
  pub destination_address : Text
  pub status : DeliveryStatus
  pub waiting_on_after_delivery : Option WaitingOn
  pub attempts : ℕ
  pub next_attempt_at : Moment
  pub last_error : Option Text
  pub lock_token : Option Uuid
  pub locked_until : Option Moment
  pub created_at : Moment

-- `payload_json`, by the dictionaries that the formatting module renders.
pub data Payload : Type 0 where
  content : Text → Payload
  media : Uuid → Payload
  template_card : (title desc sub_title_text url : Text) (task_id : Uuid) → Payload

-- `platform_result_json`: the two delivery modes that the service writes and tests, or what the
-- platform returned.
pub data PlatformResult : Type 0 where
  deferred_passive_pending deferred_passive_completed : PlatformResult
  returned : Text → PlatformResult

pub record DeliveryItem : Type 0 where
  pub id : Uuid
  pub delivery_id : Uuid
  pub position : ℕ
  pub kind : PartKind
  pub req_id : Uuid
  pub status : DeliveryItemStatus
  pub payload : Payload
  pub platform_result : Option PlatformResult
  pub last_error : Option Text

pub record IssueStatusUpdateJob : Type 0 where
  pub id : Uuid
  pub case_id : Uuid
  pub entry_id : Uuid
  pub entry_sequence : ℕ
  pub state : IssueStatusUpdateState
  pub attempts : ℕ
  pub next_attempt_at : Moment
  pub lock_token : Option Uuid
  pub locked_until : Option Moment
  pub last_error : Option Text
  pub completed_at : Option Moment
  pub created_at : Moment

-- The columns of an upload draft that the case desk reads: the number that it reserves.
pub record IssueIntakeDraft : Type 0 where
  pub id : Uuid
  pub issue_number : Text

pub record BugDailySequence : Type 0 where
  pub date_key : Text
  pub last_sequence : ℕ

pub record WebSession : Type 0 where
  pub id : Uuid
  pub token_hash : Text
  pub user_id : Uuid
  pub expires_at : Moment
  pub created_at : Moment
  pub last_seen_at : Moment
