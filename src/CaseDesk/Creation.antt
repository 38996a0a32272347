-- ===== src/CaseDesk/Creation.antt =====
-- `_create_case` of src/kefu/case_desk/service.py. The field `issue_metadata`, which is stored and
-- read by no modelled operation, is left out.
use message_router.Prelude.{
  false, Option, none, some, List, [], ◌∷◌, ◌++◌, nat_eq, leb, Text, text_eq, codes, strip,
  clean_optional_text, or_else,
}
use message_router.Models.{
  TeamKind, team_kind_eq, EntrySide, entry_side_eq, Case, CaseEntryKind, CaseStatus,
  LifecycleStatus, WaitingOn, MessageIntent, DeliveryDestination, action,
}
use message_router.Session.{Db, validation_error}
use message_router.Session.Query.{ensure, gets}
use message_router.Session.Tx.{Tx, query, modify, uuid4, pure, ◌>>=◌, ◌>>◌}
use message_router.Directory.Lookup.{get_team, active_channel, active_consult_channel}
use message_router.Numbering.{next_bug_number}
use message_router.IssueTitles.{format_customer_issue_title}
use message_router.CaseDesk.Commands.{Actor, CommandResult, CreateCase, ContentPart}
use message_router.CaseDesk.Common.{
  result, existing_source_entry, clean_source_msgid, validate_parts, assert_media_exists,
}
use message_router.CaseDesk.Timeline.{append_entry, add_parts}
use message_router.CaseDesk.Outgoing.{to_send, create_formal_delivery}
use message_router.CaseDesk.Metadata.{
  validated_customer_name, validated_customer_group_name, is_issue_current_status,
}
use message_router.CaseDesk.Deadlines.{min_deadline_increment_minutes}
use message_router.CaseDesk.CreationChecks.{
  Creator, some_or, creator_of, existing_result, validated_title, validated_handler_name,
  validated_related_case, chosen_deadline, number_of, assert_number_free, is_issue_module, at_most,
  id_or, window_or_default,
}

unfoldable pub add_case : Case → Db → Db
add_case case db = record db { cases = db.cases ++ case ∷ [] }

-- `_create_case`, for a message that has no issue yet. The parts are validated and the message's
-- identifier is clean.
unfoldable pub create_new : CreateCase → Creator → List ContentPart → Option Text → Tx CommandResult
create_new command creator parts source_msgid = do
  query (assert_media_exists parts)
  dev_team ←
      query (get_team (id_or command.initial_acceptance_team_id command.dev_team_id) TeamKind.dev)
  channel ← query (active_channel dev_team.id)
  query (active_consult_channel command.consult_queue_id)
  given_title ← query (validated_title command.title parts)
  let title = format_customer_issue_title given_title (some_or command.customer_name []) []
  customer_group_name ← query (validated_customer_group_name command.customer_group_name)
  handler_name ← query (validated_handler_name creator.handler_name)
  related_case_id ← query (validated_related_case command.related_case_id)
  created_at ← query (gets (λ env db. env.now))
  deadline ← query (chosen_deadline created_at command.deadline)
  issue_number ← number_of command.issue_number
  query (assert_number_free issue_number source_msgid)
  let issue_status = strip (or_else command.issue_current_status (codes "问题未回复"))
  query (ensure (is_issue_current_status issue_status) validation_error)
  let issue_description = clean_optional_text command.issue_description
  query (ensure (at_most 20000 issue_description) validation_error)
  let current_situation = clean_optional_text command.issue_current_situation
  query (ensure (at_most 20000 current_situation) validation_error)
  let suspected_type = clean_optional_text command.suspected_type
  query (ensure (is_issue_module suspected_type) validation_error)
  let issue_source = clean_optional_text command.issue_source
  query (ensure (at_most 256 issue_source) validation_error)
  bug_number ← next_bug_number created_at
  let window = window_or_default command.approaching_window_minutes
  query (ensure (leb min_deadline_increment_minutes window) validation_error)
  id ← uuid4
  let case : Case = record {
    id = id;
    case_ref = issue_number;
    title = title;
    customer_name = validated_customer_name command.customer_name;
    customer_group_name = customer_group_name;
    customer_contact_name = clean_optional_text command.customer_contact_name;
    customer_contact_method = clean_optional_text command.customer_contact_method;
    priority = command.priority;
    deadline = deadline;
    approaching_window_minutes = window;
    lifecycle_status = LifecycleStatus.opened;
    status = CaseStatus.pending_confirmation;
    waiting_on = WaitingOn.consult;
    consult_queue_id = command.consult_queue_id;
    current_consultant_id = creator.actor_id;
    consult_handler_name = handler_name;
    current_dev_team_id = channel.team_id;
    initial_acceptance_team_id = some dev_team.id;
    creator_id = creator.actor_id;
    related_case_id = related_case_id;
    issue_description = issue_description;
    suspected_type = suspected_type;
    issue_current_situation = current_situation;
    issue_current_status = issue_status;
    bug_number = some bug_number;
    issue_source = issue_source;
    initial_expires_at = some deadline;
    version = 1;
    last_entry_sequence = 0;
    created_at = created_at;
  }
  modify (add_case case)
  (case₁, entry) ← append_entry case (record {
    kind = CaseEntryKind.formal_message;
    side = EntrySide.consult;
    actor_user = creator.entry_actor_user;
    actor_name = some (some_or creator.entry_actor_name handler_name);
    intent = some MessageIntent.handoff;
    source_msgid = source_msgid;
    corrects_entry_id = none;
    metadata = action (codes "create_case");
  })
  add_parts entry parts
  (case₂, delivery_id) ←
      create_formal_delivery case₁ entry
        (to_send DeliveryDestination.chat channel.chatid (some WaitingOn.dev))
  pure (result case₂ (some entry.id) (delivery_id ∷ []) false)

unfoldable pub create_once : Option CommandResult → Tx CommandResult → Tx CommandResult
create_once none create = create
create_once (some known) create = pure known

-- A message that has an issue already creates no other. The source looks twice: before and after
-- it validates the parts.
unfoldable pub create_case : CreateCase → Actor → Tx CommandResult
unfolding create_once create_new
create_case command actor = do
  creator ← query (creator_of command actor)
  existing ← query (existing_source_entry command.source_msgid)
  known ← query (existing_result creator command existing)
  create_once known (do
    parts ← query (validate_parts command.parts)
    source_msgid ← query (clean_source_msgid command.source_msgid)
    again ← query (existing_source_entry source_msgid)
    known_again ← query (existing_result creator command again)
    create_once known_again (create_new command creator parts source_msgid))
