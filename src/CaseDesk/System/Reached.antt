-- ===== src/CaseDesk/System/Reached.antt =====
-- What holds of all tables that the case desk of src/kefu/case_desk/service.py reaches.
use message_router.Prelude.{◌≡◌, sym, subst, Option, List, [], ◌++◌}
use mathlib.Core.List.{append-nil}
use message_router.Models.{Case, CaseEntry, WaitingOn}
use message_router.Session.{Db, Env}
use message_router.Session.Tx.Rules.{Yields-transact}
use message_router.CaseDesk.Commands.{Command}
use message_router.CaseDesk.System.{
  Operation, command_executed, deliveries_claimed, replies_completed, replies_restored,
  replies_recovered, evaluations_claimed, evaluations_completed, evaluations_failed, perform, Reach,
  here, next,
}
use message_router.CaseDesk.Invariants.Stable.{Stable}
use message_router.CaseDesk.Invariants.Commands.{Needs, Needs-Any, execute-keeps}
use message_router.CaseDesk.Invariants.Worker.{
  claim_pending_deliveries-keeps, restore_deferred_deliveries-keeps,
  recover_deferred_deliveries-keeps, complete_deferred_deliveries-keeps,
}
use message_router.CaseDesk.Invariants.Evaluations.{
  complete_issue_status_update-keeps, fail_issue_status_update-keeps,
  claim_pending_issue_status_updates-keeps,
}
use message_router.CaseDesk.Invariants.AppendOnly.{Extends-Stable}
use message_router.CaseDesk.Invariants.Lifecycle.{IsSound, IsSound-Stable, Needs-IsCoherent}

-- What an operation needs of a predicate of issues: what its command does.
abbrev pub OperationNeeds : Env → (Case → Type 0) → Operation → Type 0
OperationNeeds env C (command_executed command actor) = Needs env C command
OperationNeeds env C _ = Unit

pub perform-keeps :
    {J : Db → Type 0} {C : Case → Type 0} {D : Option WaitingOn → Type 0} (st : Stable J C D)
    (operation : Operation) (env : Env) (db : Db)
    → OperationNeeds env C operation
    → J db
    → J (perform operation env db)
unfolding perform
perform-keeps st (command_executed command actor) env db needs j =
    execute-keeps env st command actor db needs j
perform-keeps st (deliveries_claimed limit lease) env db needs j =
    Yields-transact env (claim_pending_deliveries-keeps env st limit lease) db j
perform-keeps st (replies_completed ids) env db needs j =
    Yields-transact env (complete_deferred_deliveries-keeps env st ids) db j
perform-keeps st (replies_restored ids) env db needs j =
    Yields-transact env (restore_deferred_deliveries-keeps env st ids) db j
perform-keeps st replies_recovered env db needs j =
    Yields-transact env (recover_deferred_deliveries-keeps env st) db j
perform-keeps st (evaluations_claimed limit lease) env db needs j =
    Yields-transact env (claim_pending_issue_status_updates-keeps env st limit lease) db j
perform-keeps st (evaluations_completed claims status) env db needs j =
    Yields-transact env (complete_issue_status_update-keeps env st claims status) db j
perform-keeps st (evaluations_failed claims error) env db needs j =
    Yields-transact env (fail_issue_status_update-keeps env st claims error) db j

abbrev every :
    (C : Case → Type 0) (env : Env)
    → ((command : Command) → Needs env C command)
    → (operation : Operation) → OperationNeeds env C operation
every C env needs (command_executed command actor) = needs command
every C env needs _ = tt

Reach-keeps :
    {J : Db → Type 0} {C : Case → Type 0} {D : Option WaitingOn → Type 0} (st : Stable J C D)
    → ((env : Env) (command : Command) → Needs env C command)
    → {start db : Db} → Reach start db
    → J start
    → J db
Reach-keeps st needs here j = j
Reach-keeps {J} {C} st needs (next operation env before r e) j = subst J (sym e) (
    perform-keeps st operation env before (every C env (needs env) operation)
      (Reach-keeps st needs r j))

-- In all tables that the case desk reaches, by any sequence of commands, claims, reports and
-- recoveries of any users and workers, each at its own time and whether it returns or raises: the
-- entries that the tables held at the start are there, unchanged and in the same order, and what is
-- new stands behind them; and if at the start every issue was closed with the status `closed` and
-- waited on nobody, or was open with another status and waited on a side, and no delivery handed over
-- to `WaitingOn.NONE`, then the same holds still.
pub Reach-IsSound :
    {start db : Db} (reached : Reach start db)
    → IsSound start
    → IsSound db × ((new : List CaseEntry) × (db.entries ≡ start.entries ++ new))
Reach-IsSound {start} reached sound = (
  Reach-keeps IsSound-Stable Needs-IsCoherent reached sound,
  Reach-keeps (Extends-Stable start.entries) Needs-Any reached ([], sym (append-nil start.entries)),
)
