-- ===== src/CaseDesk/Invariants/Lifecycle.antt =====
-- The check constraint of the table of issues (src/kefu/persistence/models.py) and the tie between an
-- issue's lifecycle, its status and the side that it waits on.
use message_router.Prelude.{
  ◌≡◌, ◌≢◌, refl, ◌⊎◌, inl, inr, Bool-cases, Option, some, [], ◌∷◌, Text, ◌==◌, nat_eq, All,
  All-append, All-update, arith,
}
use message_router.Models.{Case, CaseStatus, LifecycleStatus, WaitingOn, Delivery}
use message_router.Session.{Db, Env}
use message_router.Numbering.{insert_if_absent, increment, is_none, sequence_of}
use message_router.CaseDesk.Commands.{Actor, Command}
use message_router.CaseDesk.Common.{put_case}
use message_router.CaseDesk.Timeline.{add_entry, add_part}
use message_router.CaseDesk.Outgoing.{add_delivery, add_item}
use message_router.CaseDesk.Metadata.{cancel_jobs}
use message_router.CaseDesk.Messages.{add_job}
use message_router.CaseDesk.Creation.{add_case}
use message_router.CaseDesk.Outbox.{put_delivery, put_item}
use message_router.CaseDesk.Deferred.{put_items}
use message_router.CaseDesk.StatusJobs.{put_job}
use message_router.CaseDesk.Execute.{execute}
use message_router.CaseDesk.Invariants.Stable.{Stable, SameState}
use message_router.CaseDesk.Invariants.Commands.{execute-keeps, Needs, Needs-all}

-- A closed issue has the status `closed` and waits on nobody; an open one has another status and
-- waits on a side.
abbrev pub IsCoherent : Case → Type 0
IsCoherent c =
    ((c.lifecycle_status ≡ LifecycleStatus.closed)
      × (c.status ≡ CaseStatus.closed)
      × (c.waiting_on ≡ WaitingOn.none))
    ⊎ ((c.lifecycle_status ≡ LifecycleStatus.opened)
        × (c.status ≢ CaseStatus.closed)
        × (c.waiting_on ≢ WaitingOn.none))

-- A delivery hands over to a side, or hands over nothing.
abbrev pub HandsToSide : Option WaitingOn → Type 0
HandsToSide w = w ≢ some WaitingOn.none

abbrev pub DeliveryHandsToSide : Delivery → Type 0
DeliveryHandsToSide d = HandsToSide d.waiting_on_after_delivery

pub record IsSound (db : Db) : Type 0 where
  pub cases : All IsCoherent db.cases
  pub deliveries : All DeliveryHandsToSide db.deliveries

put_case-IsSound : (c : Case) (db : Db) → IsCoherent c → IsSound db → IsSound (put_case c db)
unfolding put_case
put_case-IsSound c db h s = record {
  cases = All-update IsCoherent (λ x. x.id == c.id) (λ _. c) db.cases (λ x _ _. h) s.cases;
  deliveries = s.deliveries;
}

add_case-IsSound : (c : Case) (db : Db) → IsCoherent c → IsSound db → IsSound (add_case c db)
unfolding add_case
add_case-IsSound c db h s = record {
  cases = All-append IsCoherent db.cases (c ∷ []) s.cases (h, tt);
  deliveries = s.deliveries;
}

add_delivery-IsSound :
    (d : Delivery) (db : Db) → DeliveryHandsToSide d → IsSound db → IsSound (add_delivery d db)
unfolding add_delivery
add_delivery-IsSound d db h s = record {
  cases = s.cases;
  deliveries = All-append DeliveryHandsToSide db.deliveries (d ∷ []) s.deliveries (h, tt);
}

put_delivery-IsSound :
    (d : Delivery) (db : Db) → DeliveryHandsToSide d → IsSound db → IsSound (put_delivery d db)
unfolding put_delivery
put_delivery-IsSound d db h s = record {
  cases = s.cases;
  deliveries =
      All-update DeliveryHandsToSide (λ x. x.id == d.id) (λ _. d) db.deliveries (λ x _ _. h)
        s.deliveries;
}

-- Statements that touch neither table.
keep-IsSound :
    (db db' : Db) → db'.cases ≡ db.cases → db'.deliveries ≡ db.deliveries → IsSound db → IsSound db'
keep-IsSound db db' p q s = record { cases = rw p s.cases; deliveries = rw q s.deliveries }

insert_if_absent-IsSound : (key : Text) (db : Db) → IsSound db → IsSound (insert_if_absent key db)
unfolding insert_if_absent
insert_if_absent-IsSound key db s = elim (Bool-cases (is_none (sequence_of key db))) [
  | inl t ↦ rw t (keep-IsSound db _ refl refl s)
  | inr f ↦ rw f s
]

same-IsCoherent : (a b : Case) → SameState a b → IsCoherent a → IsCoherent b
same-IsCoherent a b eq h = ground arith

moved-IsCoherent :
    (c : Case) (status : CaseStatus)
    → IsCoherent c
    → c.lifecycle_status ≡ LifecycleStatus.opened
    → status ≢ CaseStatus.closed
    → IsCoherent (record c { status = status })
moved-IsCoherent c status h is_opened not_closed = ground arith

handed-IsCoherent :
    (c : Case) (side : WaitingOn)
    → IsCoherent c
    → c.lifecycle_status ≡ LifecycleStatus.opened
    → HandsToSide (some side)
    → IsCoherent (record c { waiting_on = side })
handed-IsCoherent c side h is_opened d = ground arith

pub IsSound-Stable : Stable IsSound IsCoherent HandsToSide
unfolding add_entry add_part add_item put_item put_items put_job add_job cancel_jobs increment
IsSound-Stable = record {
  put_case = put_case-IsSound;
  add_case = add_case-IsSound;
  add_entry = λ e db s. keep-IsSound db _ refl refl s;
  add_part = λ p db s. keep-IsSound db _ refl refl s;
  add_delivery = add_delivery-IsSound;
  put_delivery = put_delivery-IsSound;
  add_item = λ i db s. keep-IsSound db _ refl refl s;
  put_item = λ i db s. keep-IsSound db _ refl refl s;
  put_items = λ id f db s. keep-IsSound db _ refl refl s;
  add_job = λ j db s. keep-IsSound db _ refl refl s;
  put_job = λ j db s. keep-IsSound db _ refl refl s;
  cancel_jobs = λ id db s. keep-IsSound db _ refl refl s;
  insert_if_absent = insert_if_absent-IsSound;
  increment = λ key db s. keep-IsSound db _ refl refl s;
  all_cases = λ db s. s.cases;
  all_deliveries = λ db s. s.deliveries;
  same = same-IsCoherent;
  moved = moved-IsCoherent;
  handed = handed-IsCoherent;
  nowhere = λ e. cc;
  to_consult = λ e. cc;
  to_dev = λ e. cc;
}

pub Needs-IsCoherent : (env : Env) (command : Command) → Needs env IsCoherent command
Needs-IsCoherent env command =
    Needs-all env IsCoherent command (record { created = λ n c _ p q r. inr (p, q, r) })
      (record { closed = λ old c _ _ p q r. inl (p, q, r) })
      (record { reopened = λ old c _ _ p q r. inr (p, q, r) })

-- If, in the tables before `execute`, every issue is closed with the status `closed` and waits on
-- nobody, or is open with another status and waits on a side, and no delivery hands over to
-- `WaitingOn.NONE`, then the same holds of the tables afterwards, whatever the command and the
-- actor, and whether it returns or raises.
pub execute-IsSound :
    (command : Command) (actor : Actor) (env : Env) (db : Db)
    → IsSound db
    → IsSound (execute command actor env db).1
execute-IsSound command actor env db s =
    execute-keeps env IsSound-Stable command actor db (Needs-IsCoherent env command) s
