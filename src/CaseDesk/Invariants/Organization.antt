-- ===== src/CaseDesk/Invariants/Organization.antt =====
-- The commands of the case desk leave the organization alone: users, teams, memberships, channels,
-- upload drafts and stored media.
use message_router.Prelude.{◌≡◌, refl, Bool-cases, inl, inr, Text}
use message_router.Session.{Db, Env}
use message_router.Session.Tx.Rules.{Any, All-Any}
use message_router.Numbering.{insert_if_absent, increment, is_none, sequence_of}
use message_router.CaseDesk.Commands.{Actor, Command}
use message_router.CaseDesk.Common.{put_case}
use message_router.CaseDesk.Timeline.{add_entry, add_part}
use message_router.CaseDesk.Outgoing.{add_delivery, add_item}
use message_router.CaseDesk.Metadata.{cancel_jobs}
use message_router.CaseDesk.Messages.{add_job}
use message_router.CaseDesk.Creation.{add_case}
use message_router.CaseDesk.Outbox.{put_delivery, put_item}
use message_router.CaseDesk.Deferred.{put_items}
use message_router.CaseDesk.StatusJobs.{put_job}
use message_router.CaseDesk.Execute.{execute}
use message_router.CaseDesk.Invariants.Stable.{Stable}
use message_router.CaseDesk.Invariants.Commands.{execute-keeps, Needs-Any}

abbrev pub SameOrganization : Db → Db → Type 0
SameOrganization base db =
    (db.users ≡ base.users)
    × (db.teams ≡ base.teams)
    × (db.memberships ≡ base.memberships)
    × (db.channels ≡ base.channels)
    × (db.drafts ≡ base.drafts)
    × (db.stored_media ≡ base.stored_media)

insert_if_absent-SameOrganization :
    (base : Db) (key : Text) (db : Db)
    → SameOrganization base db
    → SameOrganization base (insert_if_absent key db)
unfolding insert_if_absent
insert_if_absent-SameOrganization base key db h = elim (Bool-cases (is_none (sequence_of key db))) [
  | inl t ↦ rw t h
  | inr f ↦ rw f h
]

SameOrganization-Stable : (base : Db) → Stable (SameOrganization base) Any Any
unfolding put_case add_case add_entry add_part add_delivery put_delivery add_item put_item put_items
    put_job add_job cancel_jobs increment
SameOrganization-Stable base = record {
  put_case = λ c db _ h. h;
  add_case = λ c db _ h. h;
  add_entry = λ e db h. h;
  add_part = λ p db h. h;
  add_delivery = λ d db _ h. h;
  put_delivery = λ d db _ h. h;
  add_item = λ i db h. h;
  put_item = λ i db h. h;
  put_items = λ id f db h. h;
  add_job = λ j db h. h;
  put_job = λ j db h. h;
  cancel_jobs = λ id db h. h;
  insert_if_absent = insert_if_absent-SameOrganization base;
  increment = λ key db h. h;
  all_cases = λ db _. All-Any db.cases;
  all_deliveries = λ db _. All-Any db.deliveries;
  same = λ a b _ _. tt;
  moved = λ c s _ _ _. tt;
  handed = λ c s _ _ _. tt;
  nowhere = tt;
  to_consult = tt;
  to_dev = tt;
}

-- Whatever the command and the actor, and whether it returns or raises, `execute` leaves the users,
-- the teams, the memberships, the group channels, the upload drafts and the stored media as they
-- were.
pub execute-SameOrganization :
    (command : Command) (actor : Actor) (env : Env) (db : Db)
    → SameOrganization db (execute command actor env db).1
execute-SameOrganization command actor env db =
    execute-keeps env (SameOrganization-Stable db) command actor db (Needs-Any env command)
      (refl, refl, refl, refl, refl, refl)
