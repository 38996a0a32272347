-- ===== src/CaseDesk/Invariants/Commands.antt =====
-- Every command keeps every stable invariant, whoever sends it and whatever it meets.
use message_router.Prelude.{Option}
use message_router.Models.{Case, WaitingOn}
use message_router.Session.{Db, Env}
use message_router.Session.Query
use message_router.Session.Tx.Rules.{Yields, Any, Yields-read, Yields-transact}
use message_router.CaseDesk.Commands.{
  Actor, person, group, system_actor, Command, create_case, adjust_case_deadline, set_case_deadline,
  extend_case_deadline, set_case_approaching_window, post_formal_message, update_case_metadata,
  set_issue_current_status, transfer_consultant, transfer_dev_team, close_case, set_case_status,
  reopen_case, correct_entry, delivery_item_succeeded, delivery_item_failed,
}
use message_router.CaseDesk.Execute.{handler, execute}
use message_router.CaseDesk.Invariants.Stable.{Stable, Closes, Reopens, Creates}
use message_router.CaseDesk.Invariants.States.{
  close_case-keeps, set_case_status-keeps, reopen_case-keeps,
}
use message_router.CaseDesk.Invariants.Columns.{
  adjust_case_deadline-keeps, extend_case_deadline-keeps, set_case_deadline-keeps,
  set_case_approaching_window-keeps, update_case_metadata-keeps, set_issue_current_status-keeps,
  transfer_consultant-keeps, transfer_dev_team-keeps,
}
use message_router.CaseDesk.Invariants.Creations.{create_case-keeps}
use message_router.CaseDesk.Invariants.Posts.{post_formal_message-keeps, correct_entry-keeps}
use message_router.CaseDesk.Invariants.Reports.{
  delivery_item_succeeded-keeps, delivery_item_failed-keeps,
}

-- What `C` has to promise for the command.
abbrev pub Needs : Env → (Case → Type 0) → Command → Type 0
Needs env C (create_case c) = Creates env C
Needs env C (close_case ref v) = Closes C
Needs env C (reopen_case ref v w) = Reopens C
Needs env C _ = Unit

module _ {J : Db → Type 0} {C : Case → Type 0} {D : Option WaitingOn → Type 0} (env : Env)
    (st : Stable J C D) where
  pub handler-keeps :
      (command : Command) (actor : Actor)
      → Needs env C command
      → Yields env J Any (handler command actor)
  unfolding handler
  handler-keeps (create_case c) (person a) needs = create_case-keeps env st needs c (person a)
  handler-keeps (create_case c) (group side user) needs =
      create_case-keeps env st needs c (group side user)
  handler-keeps (adjust_case_deadline ref v n) (person a) needs =
      adjust_case_deadline-keeps env st ref v n a
  handler-keeps (set_case_deadline ref v t) (person a) needs =
      set_case_deadline-keeps env st ref v t a
  handler-keeps (extend_case_deadline ref v n) (person a) needs =
      extend_case_deadline-keeps env st ref v n a
  handler-keeps (set_case_approaching_window ref v n) (person a) needs =
      set_case_approaching_window-keeps env st ref v n a
  handler-keeps (post_formal_message c) (person a) needs =
      post_formal_message-keeps env st c (person a)
  handler-keeps (post_formal_message c) (group side user) needs =
      post_formal_message-keeps env st c (group side user)
  handler-keeps (update_case_metadata c) (person a) needs = update_case_metadata-keeps env st c a
  handler-keeps (set_issue_current_status ref v s) (person a) needs =
      set_issue_current_status-keeps env st ref v s a
  handler-keeps (transfer_consultant ref v to) (person a) needs =
      transfer_consultant-keeps env st ref v to a
  handler-keeps (transfer_dev_team ref v to) (person a) needs =
      transfer_dev_team-keeps env st ref v to a
  handler-keeps (close_case ref v) (person a) needs = close_case-keeps env st needs ref v a
  handler-keeps (set_case_status ref v s) (person a) needs = set_case_status-keeps env st ref v s a
  handler-keeps (reopen_case ref v w) (person a) needs = reopen_case-keeps env st needs ref v w a
  handler-keeps (correct_entry c) (person a) needs = correct_entry-keeps env st c a
  handler-keeps (delivery_item_succeeded d i t r) system_actor needs =
      delivery_item_succeeded-keeps env st d i t r
  handler-keeps (delivery_item_failed d i t e) system_actor needs =
      delivery_item_failed-keeps env st d i t e
  handler-keeps _ _ needs = Yields-read (Query.raise _)

  pub execute-keeps :
      (command : Command) (actor : Actor) (db : Db)
      → Needs env C command
      → J db
      → J (execute command actor env db).1
  unfolding execute
  execute-keeps command actor db needs j =
      Yields-transact env (handler-keeps command actor needs) db j

-- What the commands need of a predicate that allows for every life cycle.
pub Needs-all :
    (env : Env) (C : Case → Type 0) (command : Command)
    → Creates env C
    → Closes C
    → Reopens C
    → Needs env C command
Needs-all env C (create_case c) x y z = x
Needs-all env C (close_case ref v) x y z = y
Needs-all env C (reopen_case ref v w) x y z = z
Needs-all env C _ x y z = tt

pub Needs-Any : (env : Env) (command : Command) → Needs env Any command
Needs-Any env command =
    Needs-all env Any command (record { created = λ n c _ _ _ _. tt })
      (record { closed = λ old c _ _ _ _ _. tt }) (record { reopened = λ old c _ _ _ _ _. tt })
