-- ===== src/CaseDesk/System.antt =====
-- The case desk as a whole: what users, the platform and the worker do, one transaction after another
-- (src/kefu/case_desk/service.py).
pub mod Reached
pub mod LifeCycle
use message_router.Prelude.{ℕ, ◌≡◌, List, Text}
use message_router.Models.{Uuid, Moment}
use message_router.Session.{Db, Env}
use message_router.Session.Tx.{transact}
use message_router.CaseDesk.Commands.{Command, Actor}
use message_router.CaseDesk.Execute.{execute}
use message_router.CaseDesk.Leasing.{claim_pending_deliveries}
use message_router.CaseDesk.Deferred.{
  complete_deferred_deliveries, restore_deferred_deliveries, recover_deferred_deliveries,
}
use message_router.CaseDesk.StatusJobs.{
  IssueStatusUpdateClaim, complete_issue_status_update, fail_issue_status_update,
}
use message_router.CaseDesk.StatusJobs.Claims.{claim_pending_issue_status_updates}

pub data Operation : Type 0 where
  command_executed : Command → Actor → Operation
  deliveries_claimed : (limit : ℕ) (lease : Moment) → Operation
  replies_completed replies_restored : List Uuid → Operation
  replies_recovered : Operation
  evaluations_claimed : (limit : ℕ) (lease : Moment) → Operation
  evaluations_completed : List IssueStatusUpdateClaim → (status : Text) → Operation
  evaluations_failed : List IssueStatusUpdateClaim → (error : Text) → Operation

-- The tables after an operation, whether it returned or raised.
unfoldable pub perform : Operation → Env → Db → Db
perform (command_executed command actor) env db = (execute command actor env db).1
perform (deliveries_claimed limit lease) env db =
    (transact (claim_pending_deliveries limit lease) env db).1
perform (replies_completed ids) env db = (transact (complete_deferred_deliveries ids) env db).1
perform (replies_restored ids) env db = (transact (restore_deferred_deliveries ids) env db).1
perform replies_recovered env db = (transact recover_deferred_deliveries env db).1
perform (evaluations_claimed limit lease) env db =
    (transact (claim_pending_issue_status_updates limit lease) env db).1
perform (evaluations_completed claims status) env db =
    (transact (complete_issue_status_update claims status) env db).1
perform (evaluations_failed claims error) env db =
    (transact (fail_issue_status_update claims error) env db).1

-- The tables that some operations lead to, each with its own time and its own draws.
pub data Reach (start : Db) : Db → Type 0 where
  here : Reach start start
  next :
      (operation : Operation) (env : Env) (before : Db) {after : Db}
      → Reach start before
      → after ≡ perform operation env before
      → Reach start after
