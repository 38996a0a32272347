-- ===== src/CaseDesk/Transfers.antt =====
-- `_transfer_consultant` and `_transfer_dev_team` of src/kefu/case_desk/service.py.
use message_router.Prelude.{
  ℕ, ◌+◌, true, false, not, Option, none, some, [], ◌∷◌, ◌++◌, ◌==◌, nat_eq, option_beq, Text,
  codes, or_else,
}
use message_router.Models.{
  Uuid, Team, CaseEntryKind, DeliveryDestination, consultant_change, dev_team_change,
}
use message_router.Session.{validation_error}
use message_router.Session.Query
use message_router.Session.Query.{Query, ensure}
use message_router.Session.Tx.{Tx, query, pure, ◌>>=◌, ◌>>◌}
use message_router.Directory.Lookup.{
  get_user, get_user_if, team_by_id, active_channel, active_consult_channel,
}
use message_router.Directory.Access.{
  assert_case_transfer_authorized, assert_dev_team_transfer_authorized, assert_consultant_in_queue,
}
use message_router.CaseDesk.Commands.{CommandResult}
use message_router.CaseDesk.Common.{load_case, assert_expected_version, result}
use message_router.CaseDesk.Timeline.{append_entry, system_entry}
use message_router.CaseDesk.Outgoing.{create_notice_delivery}

-- `_user_name`, of a user who need not be active
unfoldable pub user_name : Option Uuid → Query (Option Text)
user_name none = Query.pure none
user_name (some user_id) =
    Query.◌>>=◌ (get_user_if false user_id) λ user. Query.pure (some user.display_name)

abbrev pub name_or : Text → Option Text → Text
name_or default none = default
name_or default (some name) = or_else name default

unfoldable pub transfer_consultant : Text → ℕ → Uuid → Uuid → Tx CommandResult
transfer_consultant case_ref expected_version new_consultant_id actor_id = do
  case ← query (load_case case_ref)
  query (assert_expected_version case (some expected_version))
  query (assert_case_transfer_authorized actor_id case)
  actor_user ← query (get_user actor_id)
  new_consultant ← query (assert_consultant_in_queue new_consultant_id case.consult_queue_id)
  query (
      ensure (not (option_beq case.current_consultant_id (some new_consultant.id)))
        validation_error)
  old_consultant ← query (user_name case.current_consultant_id)
  let moved = record case {
    current_consultant_id = some new_consultant.id;
    version = case.version + 1;
  }
  (case₁, entry) ← append_entry moved (
      system_entry CaseEntryKind.transfer_consultant actor_user
        (consultant_change old_consultant new_consultant.display_name))
  consult_channel ← query (active_consult_channel case₁.consult_queue_id)
  let content =
      codes "咨询经办已由"
      ++ name_or (codes "未指定") old_consultant
      ++ codes "转交给"
      ++ new_consultant.display_name
      ++ codes "。"
      ++ codes "请后续由"
      ++ new_consultant.display_name
      ++ codes "继续跟进。"
  (case₂, told_group) ←
      create_notice_delivery entry case₁ DeliveryDestination.chat consult_channel.chatid
        (record { content = content; event_type = codes "咨询经办变更"; include_markdown = false })
  (case₃, told_user) ←
      create_notice_delivery entry case₂ DeliveryDestination.user new_consultant.wecom_userid
        (record { content = content; event_type = codes "咨询经办变更"; include_markdown = true })
  pure (result case₃ (some entry.id) (told_group ∷ told_user ∷ []) false)

abbrev pub team_name : Option Team → Text
team_name none = codes "未知团队"
team_name (some team) = team.name

unfoldable pub transfer_dev_team : Text → ℕ → Uuid → Uuid → Tx CommandResult
transfer_dev_team case_ref expected_version new_dev_team_id actor_id = do
  case ← query (load_case case_ref)
  query (assert_expected_version case (some expected_version))
  query (assert_dev_team_transfer_authorized actor_id case)
  actor_user ← query (get_user actor_id)
  query (ensure (not (case.current_dev_team_id == new_dev_team_id)) validation_error)
  old_channel ← query (active_channel case.current_dev_team_id)
  new_channel ← query (active_channel new_dev_team_id)
  old_team ← query (team_by_id case.current_dev_team_id)
  new_team ← query (team_by_id new_channel.team_id)
  let moved = record case { current_dev_team_id = new_channel.team_id; version = case.version + 1 }
  (case₁, entry) ← append_entry moved (
      system_entry CaseEntryKind.transfer_dev_team actor_user (
        dev_team_change case.current_dev_team_id new_channel.team_id (team_name old_team)
          (team_name new_team)))
  (case₂, old_delivery) ←
      create_notice_delivery entry case₁ DeliveryDestination.chat old_channel.chatid (record {
        content = codes "本问题已转出至另一研发责任团队，后续更新不再发送到本群。";
        event_type = codes "问题转出";
        include_markdown = false;
      })
  (case₃, new_delivery) ←
      create_notice_delivery entry case₂ DeliveryDestination.chat new_channel.chatid (record {
        content = codes "本问题已转入本团队，请在问题中心查看完整时间线。";
        event_type = codes "问题转入";
        include_markdown = true;
      })
  pure (result case₃ (some entry.id) (old_delivery ∷ new_delivery ∷ []) false)
