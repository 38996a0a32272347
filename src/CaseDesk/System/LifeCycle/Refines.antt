-- ===== src/CaseDesk/System/LifeCycle/Refines.antt =====
-- The case desk of src/kefu/case_desk/service.py refines the abstract life cycle.
use message_router.Prelude.{All-weaken, ◌≡◌, refl, ap, some, nat_eq, inl, inr, arith}
use message_router.Models.{Uuid, LifecycleStatus}
use message_router.Session.{Db, Env}
use message_router.CaseDesk.Commands.{Command, create_case, close_case, reopen_case}
use message_router.CaseDesk.Invariants.Stable.{Closes, Reopens, Creates}
use message_router.CaseDesk.Invariants.Commands.{Needs}
use message_router.CaseDesk.System.{Operation, command_executed, perform}
use message_router.CaseDesk.System.Reached.{OperationNeeds, perform-keeps}
use message_router.CaseDesk.System.LifeCycle.{
  Event, creating, closing, reopening, other, View, Move, event_of_command, event_of, view, IsKeyed,
  AreFresh,
}
use message_router.CaseDesk.System.LifeCycle.Kept.{Moved, AllMoved, AllMoved-Stable}

stays : (e : Event) (v w : View) → v ≡ w → Move e v w
stays creating v w h = inl h
stays closing v w h = inl h
stays reopening v w h = inl h
stays other v w h = h

stays-AllMoved : (e : Event) (db : Db) → IsKeyed db → AllMoved e db db
stays-AllMoved e db keyed = record {
  cases =
      All-weaken (λ c. view c.id db ≡ some c.lifecycle_status) (Moved e db) db.cases
        (λ c h. stays e (view c.id db) (some c.lifecycle_status) h) keyed;
  views = λ id. stays e (view id db) (view id db) refl;
}

created-Moved : (env : Env) (base : Db) → AreFresh env base → Creates env (Moved creating base)
created-Moved env base fresh = record { created = λ n c i l _ _. inr (rw i (fresh n), ap some l) }

closed-Moved : (base : Db) → Closes (Moved closing base)
closed-Moved base = record {
  closed = λ old c m i l _ _.
      rw i (closes (view old.id base) old.lifecycle_status c.lifecycle_status m l);
}
  where
    closes :
        (v : View) (l l' : LifecycleStatus)
        → Move closing v (some l)
        → l' ≡ LifecycleStatus.closed
        → Move closing v (some l')
    closes v LifecycleStatus.opened l' m e = ground arith
    closes v LifecycleStatus.closed l' m e = ground arith

reopened-Moved : (base : Db) → Reopens (Moved reopening base)
reopened-Moved base = record {
  reopened = λ old c m i l _ _.
      rw i (reopens (view old.id base) old.lifecycle_status c.lifecycle_status m l);
}
  where
    reopens :
        (v : View) (l l' : LifecycleStatus)
        → Move reopening v (some l)
        → l' ≡ LifecycleStatus.opened
        → Move reopening v (some l')
    reopens v LifecycleStatus.opened l' m e = ground arith
    reopens v LifecycleStatus.closed l' m e = ground arith

Needs-Moved :
    (env : Env) (base : Db) (command : Command)
    → AreFresh env base
    → Needs env (Moved (event_of_command command) base) command
Needs-Moved env base (create_case c) fresh = created-Moved env base fresh
Needs-Moved env base (close_case ref v) fresh = closed-Moved base
Needs-Moved env base (reopen_case ref v w) fresh = reopened-Moved base
Needs-Moved env base _ fresh = tt

OperationNeeds-Moved :
    (env : Env) (base : Db) (operation : Operation)
    → AreFresh env base
    → OperationNeeds env (Moved (event_of operation) base) operation
OperationNeeds-Moved env base (command_executed command actor) fresh =
    Needs-Moved env base command fresh
OperationNeeds-Moved env base _ fresh = tt

-- Seen by the lifecycle of one issue, whichever, every operation of the case desk is a move of the
-- abstract life cycle: creating issues may bring an open issue about where none was, closing may close
-- an open issue, reopening may open a closed one, and each may leave the issue as it is; every other
-- operation, be it a message, a transfer, a change of columns or of the status, a correction, a claim
-- or a report of the worker, leaves the lifecycle as it is. The ids of the issues are keys before the
-- operation, and the UUIDs that it may draw are no issue's.
pub perform-Move :
    (operation : Operation) (env : Env) (db : Db) (id : Uuid)
    → IsKeyed db
    → AreFresh env db
    → Move (event_of operation) (view id db) (view id (perform operation env db))
perform-Move operation env db id keyed fresh =
    let e = event_of operation in
    (perform-keeps (AllMoved-Stable e db) operation env db
        (OperationNeeds-Moved env db operation fresh) (stays-AllMoved e db keyed)).views
      id
