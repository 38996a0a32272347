-- ===== src/CaseDesk/Corrections.antt =====
-- `_correct_entry` of src/kefu/case_desk/service.py.
use message_router.Prelude.{
  ◌+◌, false, not, ◌&&◌, Option, none, some, List, [], ◌∷◌, ◌==◌, nat_eq, Text, text_eq, codes,
  is_empty, first,
}
use message_router.Models.{
  Uuid, CaseEntryKind, case_entry_kind_eq, CaseEntryPart, PartKind, EntrySide, MessageIntent,
  WaitingOn, DeliveryDestination, corrected_to, corrected_from,
}
use message_router.Session.{validation_error, not_found, assertion_error}
use message_router.Session.Query
use message_router.Session.Query.{Query, ensure, require, gets}
use message_router.Session.Tx.{Tx, query, pure, ◌>>=◌, ◌>>◌}
use message_router.Directory.Lookup.{get_user}
use message_router.Directory.Access.{assert_case_visible, assert_consult_manager}
use message_router.Markers.{normalize_case_ref}
use message_router.CaseDesk.Commands.{
  CommandResult, CorrectEntry, ContentPart, text_part, image_part,
}
use message_router.CaseDesk.Common.{
  load_case, assert_expected_version, assert_open, entry_parts, result,
}
use message_router.CaseDesk.Timeline.{append_entry, add_parts}
use message_router.CaseDesk.Outgoing.{
  to_send, create_formal_delivery, create_notice_delivery, destination_for_side,
  opposite_waiting_side,
}

-- `_part_from_orm`, with its assertions
unfoldable pub part_from_row : PartKind → Option Text → Option Uuid → Query ContentPart
part_from_row PartKind.text (some s) media = Query.pure (text_part s)
part_from_row PartKind.image s (some media) = Query.pure (image_part media)
part_from_row _ _ _ = Query.raise assertion_error

unfoldable pub parts_from_rows : List CaseEntryPart → Query (List ContentPart)
unfolding part_from_row
parts_from_rows [] = Query.pure []
parts_from_rows (row ∷ rest) =
    Query.◌>>=◌ (part_from_row row.kind row.text row.media_id)
      λ part. Query.◌>>=◌ (parts_from_rows rest) λ parts. Query.pure (part ∷ parts)

unfoldable pub wait_after : Option MessageIntent → EntrySide → Query (Option WaitingOn)
wait_after (some MessageIntent.handoff) side =
    Query.◌>>=◌ (opposite_waiting_side side) λ waiting. Query.pure (some waiting)
wait_after _ side = Query.pure none

-- The message is copied to the other issue, and both timelines say so.
unfoldable pub correct_entry : CorrectEntry → Uuid → Tx CommandResult
unfolding parts_from_rows wait_after
correct_entry command actor_id = do
  source_ref ← query (normalize_case_ref command.case_ref)
  target_ref ← query (normalize_case_ref command.target_case_ref)
  query (ensure (not (source_ref == target_ref)) validation_error)
  source ← query (load_case command.case_ref)
  target ← query (load_case command.target_case_ref)
  query (assert_expected_version source (some command.expected_version))
  query (assert_expected_version target (some command.target_expected_version))
  query (assert_consult_manager actor_id source)
  query (assert_case_visible actor_id target)
  query (assert_open target)
  actor_user ← query (get_user actor_id)
  found ← query (
      gets λ env db. first (λ e. (e.id == command.entry_id) && (e.case_id == source.id)) db.entries)
  original ← query (require found not_found)
  query (ensure (original.kind == CaseEntryKind.formal_message) validation_error)
  original_parts ← query (entry_parts original.id)
  query (ensure (not (is_empty original_parts)) validation_error)
  copied_parts ← query (parts_from_rows original_parts)
  (source₁, source_entry) ←
      append_entry (record source { version = source.version + 1 })
        (record {
          kind = CaseEntryKind.correction;
          side = EntrySide.system;
          actor_user = some actor_user;
          actor_name = none;
          intent = none;
          source_msgid = none;
          corrects_entry_id = some original.id;
          metadata = corrected_to target.case_ref;
        })
  (target₁, corrected_entry) ←
      append_entry (record target { version = target.version + 1 })
        (record {
          kind = CaseEntryKind.correction;
          side = original.side;
          actor_user = some actor_user;
          actor_name = none;
          intent = original.message_intent;
          source_msgid = none;
          corrects_entry_id = some original.id;
          metadata = corrected_from source.case_ref original.actor_name_snapshot;
        })
  add_parts corrected_entry copied_parts
  source_channel ← query (destination_for_side source₁ original.side)
  (source₂, source_delivery) ←
      create_notice_delivery source_entry source₁ DeliveryDestination.chat source_channel.chatid
        (record {
          content = codes "上一条正式消息已被标记为误发；请以问题中心中的纠错记录为准。";
          event_type = codes "消息纠错";
          include_markdown = false;
        })
  target_channel ← query (destination_for_side target₁ original.side)
  waiting ← query (wait_after original.message_intent original.side)
  (target₂, corrected_delivery) ←
      create_formal_delivery target₁ corrected_entry
        (to_send DeliveryDestination.chat target_channel.chatid waiting)
  pure (result source₂ (some source_entry.id) (source_delivery ∷ corrected_delivery ∷ []) false)
