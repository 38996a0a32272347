-- ===== src/CaseDesk/Commands.antt =====
-- src/kefu/case_desk/contracts.py: the actors, the commands and their result. A command that names a
-- class of the source has that class's fields, in order.
use message_router.Prelude.{ℕ, Bool, Option, List, Text}
use message_router.Prelude.Int.{ℤ}
use message_router.Models.{
  Uuid, Moment, CasePriority, CaseStatus, WaitingOn, MessageIntent, EntrySide, PlatformResult,
}

-- `Actor`, `GroupActor` and `SYSTEM_ACTOR`
pub data Actor : Type 0 where
  person : Uuid → Actor
  group : EntrySide → Option Uuid → Actor
  system_actor : Actor

pub data ContentPart : Type 0 where
  text_part : Text → ContentPart
  image_part : Uuid → ContentPart

-- A `datetime` of a caller, which may lack a time zone.
pub data GivenTime : Type 0 where
  naive : GivenTime
  aware : Moment → GivenTime

pub record CreateCase : Type 0 where
  pub title : Text
  pub consult_queue_id : Uuid
  pub dev_team_id : Uuid
  pub consult_handler_name : Option Text
  pub customer_name : Option Text
  pub customer_group_name : Option Text
  pub customer_contact_name : Option Text
  pub customer_contact_method : Option Text
  pub priority : CasePriority
  pub parts : List ContentPart
  pub source_msgid : Option Text
  pub related_case_id : Option Uuid
  pub deadline : Option GivenTime
  pub initial_acceptance_team_id : Option Uuid
  pub issue_description : Option Text
  pub suspected_type : Option Text
  pub issue_current_situation : Option Text
  pub issue_current_status : Text
  pub issue_source : Option Text
  pub approaching_window_minutes : Option ℕ
  pub issue_number : Option Text
  pub origin_chatid : Option Text

pub record PostFormalMessage : Type 0 where
  pub case_ref : Text
  pub expected_version : Option ℕ
  pub parts : List ContentPart
  pub intent : MessageIntent
  pub source_msgid : Option Text
  pub side : Option EntrySide
  pub origin_chatid : Option Text
  pub suppress_delivery : Bool

pub record UpdateCaseMetadata : Type 0 where
  pub case_ref : Text
  pub expected_version : ℕ
  pub customer_name : Text
  pub customer_contact_name : Option Text
  pub customer_contact_method : Option Text
  pub priority : CasePriority
  pub customer_group_name : Option Text

pub record CorrectEntry : Type 0 where
  pub case_ref : Text
  pub expected_version : ℕ
  pub entry_id : Uuid
  pub target_case_ref : Text
  pub target_expected_version : ℕ

pub data Command : Type 0 where
  create_case : CreateCase → Command
  adjust_case_deadline : Text → ℕ → ℤ → Command
  set_case_deadline : Text → ℕ → GivenTime → Command
  extend_case_deadline : Text → ℕ → ℤ → Command
  set_case_approaching_window : Text → ℕ → ℤ → Command
  post_formal_message : PostFormalMessage → Command
  update_case_metadata : UpdateCaseMetadata → Command
  set_issue_current_status : Text → ℕ → Text → Command
  transfer_consultant : Text → ℕ → Uuid → Command
  transfer_dev_team : Text → ℕ → Uuid → Command
  close_case : Text → ℕ → Command
  set_case_status : Text → ℕ → CaseStatus → Command
  reopen_case : Text → ℕ → WaitingOn → Command
  correct_entry : CorrectEntry → Command
  -- delivery, item, lock token, and the outcome
  delivery_item_succeeded : Uuid → Uuid → Uuid → PlatformResult → Command
  delivery_item_failed : Uuid → Uuid → Uuid → Text → Command

pub record CommandResult : Type 0 where
  pub case_ref : Text
  pub case_version : ℕ
  pub entry_id : Option Uuid
  pub delivery_ids : List Uuid
  pub idempotent : Bool
