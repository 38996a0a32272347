-- ===== src/CaseDesk/Messages.antt =====
-- `_post_formal_message` of src/kefu/case_desk/service.py.
use message_router.Prelude.{
  ◌+◌, Bool, true, false, ◌&&◌, Option, none, some, List, [], ◌∷◌, ◌++◌, ◌==◌, nat_eq,
  if◌then◌else◌, Text, codes,
}
use message_router.Models.{
  Uuid, User, team_kind_eq, EntrySide, entry_side_eq, Case, CaseEntry, CaseEntryKind, CaseStatus,
  LifecycleStatus, lifecycle_status_eq, WaitingOn, MessageIntent, DeliveryDestination,
  DeliveryStatus, DeliveryItemStatus, deferred_passive_pending, IssueStatusUpdateJob,
  IssueStatusUpdateState, action, status_change,
}
use message_router.Session.{Db, conflict}
use message_router.Session.Query
use message_router.Session.Query.{Query, ensure, gets}
use message_router.Session.Tx.{Tx, query, modify, uuid4, pure, ◌>>=◌, ◌>>◌}
use message_router.Directory.Lookup.{user_by_id}
use message_router.CaseDesk.Commands.{Actor, group, CommandResult, PostFormalMessage}
use message_router.CaseDesk.Common.{
  load_case, save_case, assert_expected_version, assert_open, result, existing_source_entry,
  clean_source_msgid, validate_parts, assert_media_exists,
}
use message_router.CaseDesk.Timeline.{append_entry, add_parts}
use message_router.CaseDesk.Outgoing.{
  Target, to_send, create_formal_delivery, destination_for_side, opposite_waiting_side,
}
use message_router.CaseDesk.Speakers.{Speaker, speaker_of}

-- Statuses from which a development group's message takes the issue up.
abbrev pub is_waiting_status : CaseStatus → Bool
is_waiting_status CaseStatus.pending_confirmation = true
is_waiting_status CaseStatus.waiting_customer = true
is_waiting_status CaseStatus.suspended = true
is_waiting_status _ = false

abbrev pub is_group : Actor → Bool
is_group (group side user_id) = true
is_group _ = false

unfoldable pub marks_processing : Actor → EntrySide → Case → Bool
marks_processing actor side case =
    ((is_group actor && (side == EntrySide.dev))
      && (case.lifecycle_status == LifecycleStatus.opened))
    && is_waiting_status case.status

unfoldable pub add_job : IssueStatusUpdateJob → Db → Db
add_job job db = record db { jobs = db.jobs ++ job ∷ [] }

-- Queues the Agent's judgement of the issue's status after `entry`.
unfoldable pub queue_status_update : Case → CaseEntry → Tx (Unit {0})
queue_status_update case entry = do
  id ← uuid4
  now ← query (gets (λ env db. env.now))
  modify (
      add_job (record {
        id = id;
        case_id = case.id;
        entry_id = entry.id;
        entry_sequence = entry.sequence;
        state = IssueStatusUpdateState.pending;
        attempts = 0;
        next_attempt_at = now;
        lock_token = none;
        locked_until = none;
        last_error = none;
        completed_at = none;
        created_at = now;
      }))

unfoldable pub wait_after : MessageIntent → EntrySide → Query (Option WaitingOn)
wait_after MessageIntent.sync side = Query.pure none
wait_after MessageIntent.handoff side =
    Query.◌>>=◌ (opposite_waiting_side side) λ waiting. Query.pure (some waiting)

-- A message that a passive reply will carry counts as sent at once.
abbrev pub group_target : Bool → Text → Option WaitingOn → Target
group_target false chatid waiting = to_send DeliveryDestination.chat chatid waiting
group_target true chatid waiting = record {
  destination_type = DeliveryDestination.chat;
  destination_address = chatid;
  waiting_on_after_delivery = waiting;
  delivery_status = DeliveryStatus.sent;
  item_status = DeliveryItemStatus.sent;
  item_platform_result = some deferred_passive_pending;
}

unfoldable pub consultant_to_copy : EntrySide → Option Uuid → Query (Option User)
consultant_to_copy EntrySide.dev (some consultant_id) =
    Query.◌>>=◌ (user_by_id consultant_id)
      λ found. Query.pure (elim found [ none ↦ none | some u ↦ if u.active then some u else none ])
consultant_to_copy _ _ = Query.pure none

-- The consultant's personal copy of a development side's message.
unfoldable pub copy_to_consultant : Option User → Case → CaseEntry → Tx (Case × List Uuid)
copy_to_consultant none case entry = pure (case, [])
copy_to_consultant (some consultant) case entry = do
  (case', id) ←
      create_formal_delivery case entry
        (to_send DeliveryDestination.user consultant.wecom_userid none)
  pure (case', id ∷ [])

unfoldable pub mark_processing : Bool → Case → Speaker → Tx Case
mark_processing false case speaker = pure case
mark_processing true case speaker = do
  (case', entry) ←
      append_entry (record case { status = CaseStatus.in_progress })
        (record {
          kind = CaseEntryKind.status_changed;
          side = EntrySide.system;
          actor_user = speaker.actor_user;
          actor_name = speaker.actor_name;
          intent = none;
          source_msgid = none;
          corrects_entry_id = none;
          metadata = status_change case.status CaseStatus.in_progress;
        })
  pure case'

-- `_post_formal_message`, for a message that has no entry yet
unfoldable pub post_new : Case → Speaker → PostFormalMessage → Actor → Tx CommandResult
unfolding queue_status_update wait_after consultant_to_copy copy_to_consultant mark_processing
post_new case speaker command actor = do
  query (assert_expected_version case command.expected_version)
  query (assert_open case)
  parts ← query (validate_parts command.parts)
  query (assert_media_exists parts)
  source_msgid ← query (clean_source_msgid command.source_msgid)
  (case₁, entry) ← append_entry case (record {
    kind = CaseEntryKind.formal_message;
    side = speaker.side;
    actor_user = speaker.actor_user;
    actor_name = speaker.actor_name;
    intent = some command.intent;
    source_msgid = source_msgid;
    corrects_entry_id = none;
    metadata = action (codes "post_formal_message");
  })
  add_parts entry parts
  queue_status_update case₁ entry
  channel ← query (destination_for_side case₁ speaker.side)
  waiting ← query (wait_after command.intent speaker.side)
  (case₂, sent_to_group) ←
      create_formal_delivery case₁ entry
        (group_target command.suppress_delivery channel.chatid waiting)
  consultant ← query (consultant_to_copy speaker.side case₂.current_consultant_id)
  (case₃, copies) ← copy_to_consultant consultant case₂ entry
  case₄ ← mark_processing (marks_processing actor speaker.side case) case₃ speaker
  let case₅ = record case₄ { version = case₄.version + 1 }
  save_case case₅
  pure (result case₅ (some entry.id) (sent_to_group ∷ copies) false)

-- A message that was recorded already is not recorded again.
unfoldable pub post_once :
    Option CaseEntry → Case → Speaker → PostFormalMessage → Actor → Tx CommandResult
post_once none case speaker command actor = post_new case speaker command actor
post_once (some existing) case speaker command actor = do
  query (ensure (existing.case_id == case.id) conflict)
  pure (result case (some existing.id) [] true)

unfoldable pub post_formal_message : PostFormalMessage → Actor → Tx CommandResult
unfolding post_once post_new
post_formal_message command actor = do
  case ← query (load_case command.case_ref)
  speaker ← query (speaker_of actor command case)
  existing ← query (existing_source_entry command.source_msgid)
  post_once existing case speaker command actor
