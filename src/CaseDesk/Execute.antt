-- ===== src/CaseDesk/Execute.antt =====
-- `CaseDesk.execute` of src/kefu/case_desk/service.py: one command, in one transaction.
use message_router.Session.{Db, Env, Result, forbidden}
use message_router.Session.Query
use message_router.Session.Tx.{Tx, query, transact}
use message_router.CaseDesk.Commands.{
  Actor, person, group, system_actor, Command, CommandResult, create_case, adjust_case_deadline,
  set_case_deadline, extend_case_deadline, set_case_approaching_window, post_formal_message,
  update_case_metadata, set_issue_current_status, transfer_consultant, transfer_dev_team,
  close_case, set_case_status, reopen_case, correct_entry, delivery_item_succeeded,
  delivery_item_failed,
}
use message_router.CaseDesk.Creation
use message_router.CaseDesk.Deadlines
use message_router.CaseDesk.Messages
use message_router.CaseDesk.Metadata
use message_router.CaseDesk.Transfers
use message_router.CaseDesk.Workflow
use message_router.CaseDesk.Corrections
use message_router.CaseDesk.Outbox

-- The command's handler. The system alone reports on deliveries, and does nothing else; a group
-- posts messages and creates issues only.
unfoldable pub handler : Command → Actor → Tx CommandResult
handler (delivery_item_succeeded delivery item token outcome) system_actor =
    Outbox.delivery_item_succeeded delivery item token outcome
handler (delivery_item_failed delivery item token error) system_actor =
    Outbox.delivery_item_failed delivery item token error
handler (post_formal_message c) (group side user) = Messages.post_formal_message c (group side user)
handler (create_case c) (group side user) = Creation.create_case c (group side user)
handler (create_case c) (person a) = Creation.create_case c (person a)
handler (adjust_case_deadline ref v minutes) (person a) =
    Deadlines.adjust_case_deadline ref v minutes a
handler (extend_case_deadline ref v minutes) (person a) =
    Deadlines.extend_case_deadline ref v minutes a
handler (set_case_deadline ref v t) (person a) = Deadlines.set_case_deadline ref v t a
handler (set_case_approaching_window ref v minutes) (person a) =
    Deadlines.set_case_approaching_window ref v minutes a
handler (post_formal_message c) (person a) = Messages.post_formal_message c (person a)
handler (update_case_metadata c) (person a) = Metadata.update_case_metadata c a
handler (set_issue_current_status ref v status) (person a) =
    Metadata.set_issue_current_status ref v status a
handler (transfer_consultant ref v to) (person a) = Transfers.transfer_consultant ref v to a
handler (transfer_dev_team ref v to) (person a) = Transfers.transfer_dev_team ref v to a
handler (close_case ref v) (person a) = Workflow.close_case ref v a
handler (set_case_status ref v status) (person a) = Workflow.set_case_status ref v status a
handler (reopen_case ref v waiting) (person a) = Workflow.reopen_case ref v waiting a
handler (correct_entry c) (person a) = Corrections.correct_entry c a
handler _ _ = query (Query.raise forbidden)

unfoldable pub execute : Command → Actor → Env → Db → Result CommandResult × Db
unfolding handler
execute command actor = transact (handler command actor)
