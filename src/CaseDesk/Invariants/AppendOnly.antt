-- ===== src/CaseDesk/Invariants/AppendOnly.antt =====
-- The timeline of src/kefu/case_desk/service.py is append-only: the entries of the tables grow at
-- the end.
use message_router.Prelude.{◌≡◌, ◌∙◌, ap, sym, Bool-cases, inl, inr, List, [], ◌∷◌, ◌++◌, Text}
use mathlib.Core.List.{append-nil, append_assoc}
use message_router.Models.{CaseEntry}
use message_router.Session.{Db, Env}
use message_router.Session.Tx.Rules.{Any, All-Any}
use message_router.Numbering.{insert_if_absent, increment, is_none, sequence_of}
use message_router.CaseDesk.Commands.{Actor, Command}
use message_router.CaseDesk.Common.{put_case}
use message_router.CaseDesk.Timeline.{add_entry, add_part}
use message_router.CaseDesk.Outgoing.{add_delivery, add_item}
use message_router.CaseDesk.Metadata.{cancel_jobs}
use message_router.CaseDesk.Messages.{add_job}
use message_router.CaseDesk.Creation.{add_case}
use message_router.CaseDesk.Outbox.{put_delivery, put_item}
use message_router.CaseDesk.Deferred.{put_items}
use message_router.CaseDesk.StatusJobs.{put_job}
use message_router.CaseDesk.Execute.{execute}
use message_router.CaseDesk.Invariants.Stable.{Stable}
use message_router.CaseDesk.Invariants.Commands.{execute-keeps, Needs-Any}

-- The entries of `db` are those of `base` and, behind them, others.
abbrev pub Extends : List CaseEntry → Db → Type 0
Extends base db = (new : List CaseEntry) × (db.entries ≡ base ++ new)

add_entry-Extends :
    (base : List CaseEntry) (e : CaseEntry) (db : Db)
    → Extends base db
    → Extends base (add_entry e db)
unfolding add_entry
add_entry-Extends base e db (new, h) =
    (new ++ e ∷ [], ap (λ l. l ++ e ∷ []) h ∙ append_assoc base new (e ∷ []))

insert_if_absent-Extends :
    (base : List CaseEntry) (key : Text) (db : Db)
    → Extends base db
    → Extends base (insert_if_absent key db)
unfolding insert_if_absent
insert_if_absent-Extends base key db h = elim (Bool-cases (is_none (sequence_of key db))) [
  | inl t ↦ rw t h
  | inr f ↦ rw f h
]

pub Extends-Stable : (base : List CaseEntry) → Stable (Extends base) Any Any
unfolding put_case add_case add_part add_delivery put_delivery add_item put_item put_items put_job
    add_job cancel_jobs increment
Extends-Stable base = record {
  put_case = λ c db _ h. h;
  add_case = λ c db _ h. h;
  add_entry = add_entry-Extends base;
  add_part = λ p db h. h;
  add_delivery = λ d db _ h. h;
  put_delivery = λ d db _ h. h;
  add_item = λ i db h. h;
  put_item = λ i db h. h;
  put_items = λ id f db h. h;
  add_job = λ j db h. h;
  put_job = λ j db h. h;
  cancel_jobs = λ id db h. h;
  insert_if_absent = insert_if_absent-Extends base;
  increment = λ key db h. h;
  all_cases = λ db _. All-Any db.cases;
  all_deliveries = λ db _. All-Any db.deliveries;
  same = λ a b _ _. tt;
  moved = λ c s _ _ _. tt;
  handed = λ c s _ _ _. tt;
  nowhere = tt;
  to_consult = tt;
  to_dev = tt;
}

-- Whatever the command and the actor, and whether it returns or raises, the entries that the
-- tables held before `execute` are there afterwards, unchanged and in the same order, and what is
-- new stands behind them.
pub execute-Extends :
    (command : Command) (actor : Actor) (env : Env) (db : Db)
    → (new : List CaseEntry) × ((execute command actor env db).1.entries ≡ db.entries ++ new)
execute-Extends command actor env db =
    execute-keeps env (Extends-Stable db.entries) command actor db (Needs-Any env command)
      ([], sym (append-nil db.entries))
