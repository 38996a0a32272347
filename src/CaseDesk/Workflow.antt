-- ===== src/CaseDesk/Workflow.antt =====
-- `_close_case`, `_set_case_status` and `_reopen_case` of src/kefu/case_desk/service.py.
pub mod Transitions
use message_router.Prelude.{
  ℕ, ◌+◌, Bool, true, false, not, ◌&&◌, ◌||◌, Option, none, some, [], ◌∷◌, ◌==◌, Text, codes,
}
use message_router.Models.{
  Uuid, Case, CaseEntry, CaseEntryKind, CaseStatus, case_status_eq, LifecycleStatus,
  lifecycle_status_eq, WaitingOn, waiting_on_eq, DeliveryDestination, action, status_change,
  reopened_to,
}
use message_router.Session.{validation_error, forbidden}
use message_router.Session.Query
use message_router.Session.Query.{Query, ensure, when}
use message_router.Session.Tx.{Tx, query, pure, ◌>>=◌, ◌>>◌}
use message_router.Directory.Lookup.{TeamChannel, get_user, is_member, active_channel}
use message_router.Directory.Access.{assert_case_visible, assert_consult_manager}
use message_router.CaseDesk.Commands.{CommandResult}
use message_router.CaseDesk.Common.{load_case, assert_expected_version, assert_open, result}
use message_router.CaseDesk.Timeline.{append_entry, system_entry}
use message_router.CaseDesk.Outgoing.{create_notice_delivery}

unfoldable pub close_case : Text → ℕ → Uuid → Tx CommandResult
close_case case_ref expected_version actor_id = do
  case ← query (load_case case_ref)
  query (assert_expected_version case (some expected_version))
  query (assert_consult_manager actor_id case)
  query (assert_open case)
  dev_channel ← query (active_channel case.current_dev_team_id)
  actor_user ← query (get_user actor_id)
  let closed = record case {
    lifecycle_status = LifecycleStatus.closed;
    status = CaseStatus.closed;
    waiting_on = WaitingOn.none;
    version = case.version + 1;
  }
  (case', entry) ←
      append_entry closed
        (system_entry CaseEntryKind.closed actor_user (action (codes "close_case")))
  (case'', delivery_id) ←
      create_notice_delivery entry case' DeliveryDestination.chat dev_channel.chatid (record {
        content = codes "咨询侧已确认问题闭环并关闭本问题。";
        event_type = codes "问题关闭";
        include_markdown = false;
      })
  pure (result case'' (some entry.id) (delivery_id ∷ []) false)

-- The states from which each state can be set.
unfoldable pub may_move : (from to : CaseStatus) → Bool
may_move CaseStatus.pending_confirmation CaseStatus.in_progress = true
may_move CaseStatus.waiting_customer CaseStatus.in_progress = true
may_move CaseStatus.suspended CaseStatus.in_progress = true
may_move CaseStatus.in_progress CaseStatus.waiting_customer = true
may_move CaseStatus.in_progress CaseStatus.suspended = true
may_move _ _ = false

-- Taking on an issue that is not confirmed yet wants a member of its development team.
unfoldable pub wants_developer : (from to : CaseStatus) → Bool
wants_developer from to =
    (to == CaseStatus.in_progress) && (from == CaseStatus.pending_confirmation)

-- `_set_case_status`, behind the test of whether the issue has the status already
unfoldable pub change_status : Bool → Case → CaseStatus → Uuid → Tx CommandResult
change_status true case status actor_id = pure (result case none [] true)
change_status false case status actor_id = do
  query (ensure (may_move case.status status) validation_error)
  member ← query (is_member actor_id case.current_dev_team_id)
  query (ensure (not (wants_developer case.status status) || member) forbidden)
  actor_user ← query (get_user actor_id)
  let moved = record case { status = status; version = case.version + 1 }
  (case', entry) ←
      append_entry moved
        (system_entry CaseEntryKind.status_changed actor_user (status_change case.status status))
  pure (result case' (some entry.id) [] false)

unfoldable pub set_case_status : Text → ℕ → CaseStatus → Uuid → Tx CommandResult
unfolding change_status
set_case_status case_ref expected_version status actor_id = do
  case ← query (load_case case_ref)
  query (assert_expected_version case (some expected_version))
  query (assert_case_visible actor_id case)
  query (assert_open case)
  query (ensure (not (status == CaseStatus.closed)) validation_error)
  query (ensure (not (status == CaseStatus.pending_confirmation)) validation_error)
  query (when (status == CaseStatus.waiting_customer) (assert_consult_manager actor_id case))
  change_status (case.status == status) case status actor_id

-- The development group is told only if it is to go on.
unfoldable pub channel_to_tell : WaitingOn → Case → Query (Option TeamChannel)
channel_to_tell WaitingOn.dev case =
    Query.◌>>=◌ (active_channel case.current_dev_team_id) λ channel. Query.pure (some channel)
channel_to_tell _ case = Query.pure none

unfoldable pub tell_reopened : Option TeamChannel → CaseEntry → Case → Tx CommandResult
tell_reopened none entry case = pure (result case (some entry.id) [] false)
tell_reopened (some channel) entry case = do
  (case', delivery_id) ←
      create_notice_delivery entry case DeliveryDestination.chat channel.chatid (record {
        content = codes "咨询侧已重新打开本问题，请研发继续处理。";
        event_type = codes "问题重新打开";
        include_markdown = true;
      })
  pure (result case' (some entry.id) (delivery_id ∷ []) false)

unfoldable pub reopen_case : Text → ℕ → WaitingOn → Uuid → Tx CommandResult
unfolding channel_to_tell tell_reopened
reopen_case case_ref expected_version waiting_on actor_id = do
  case ← query (load_case case_ref)
  query (assert_expected_version case (some expected_version))
  query (assert_consult_manager actor_id case)
  query (ensure (case.lifecycle_status == LifecycleStatus.closed) validation_error)
  query (ensure (not (waiting_on == WaitingOn.none)) validation_error)
  actor_user ← query (get_user actor_id)
  channel ← query (channel_to_tell waiting_on case)
  let reopened = record case {
    lifecycle_status = LifecycleStatus.opened;
    status = CaseStatus.in_progress;
    waiting_on = waiting_on;
    version = case.version + 1;
  }
  (case', entry) ←
      append_entry reopened
        (system_entry CaseEntryKind.reopened actor_user (reopened_to waiting_on))
  tell_reopened channel entry case'
