-- ===== src/CaseDesk/Invariants/Stable.antt =====
-- The interface between the case desk and an invariant `J` of its tables. `C` is what `J` knows of
-- each issue, and `D` what it knows of the side that each delivery hands over to. `J` is kept by the
-- statements that the commands send; of an issue, `C` may look at the lifecycle, the status and the
-- waiting side alone.
use message_router.Prelude.{ℕ, All, All-first, Bool, ◌≡◌, ◌≢◌, ◌∙◌, Option, none, some, Text, first}
use message_router.Models.{
  Uuid, Case, CaseEntry, CaseEntryPart, CaseStatus, LifecycleStatus, WaitingOn, Delivery,
  DeliveryItem, IssueStatusUpdateJob,
}
use message_router.Session.{Db, Env}
use message_router.Numbering.{insert_if_absent, increment}
use message_router.CaseDesk.Common.{put_case}
use message_router.CaseDesk.Timeline.{add_entry, add_part}
use message_router.CaseDesk.Outgoing.{add_delivery, add_item}
use message_router.CaseDesk.Metadata.{cancel_jobs}
use message_router.CaseDesk.Messages.{add_job}
use message_router.CaseDesk.Creation.{add_case}
use message_router.CaseDesk.Outbox.{put_delivery, put_item}
use message_router.CaseDesk.Deferred.{put_items}
use message_router.CaseDesk.StatusJobs.{put_job}

-- `b` differs from `a` in other columns than the three at most.
pub record SameState (a b : Case) : Type 0 where
  pub id : b.id ≡ a.id
  pub lifecycle : b.lifecycle_status ≡ a.lifecycle_status
  pub status : b.status ≡ a.status
  pub waiting : b.waiting_on ≡ a.waiting_on

pub SameState-trans : {a b c : Case} → SameState a b → SameState b c → SameState a c
SameState-trans h k = record {
  id = k.id ∙ h.id;
  lifecycle = k.lifecycle ∙ h.lifecycle;
  status = k.status ∙ h.status;
  waiting = k.waiting ∙ h.waiting;
}

pub record Stable (J : Db → Type 0) (C : Case → Type 0) (D : Option WaitingOn → Type 0)
    : Type 0 where
  pub put_case : (c : Case) (db : Db) → C c → J db → J (put_case c db)
  pub add_case : (c : Case) (db : Db) → C c → J db → J (add_case c db)
  pub add_entry : (e : CaseEntry) (db : Db) → J db → J (add_entry e db)
  pub add_part : (p : CaseEntryPart) (db : Db) → J db → J (add_part p db)
  pub add_delivery :
      (d : Delivery) (db : Db) → D d.waiting_on_after_delivery → J db → J (add_delivery d db)
  pub put_delivery :
      (d : Delivery) (db : Db) → D d.waiting_on_after_delivery → J db → J (put_delivery d db)
  pub add_item : (i : DeliveryItem) (db : Db) → J db → J (add_item i db)
  pub put_item : (i : DeliveryItem) (db : Db) → J db → J (put_item i db)
  pub put_items :
      (id : Uuid) (f : DeliveryItem → DeliveryItem) (db : Db) → J db → J (put_items id f db)
  pub add_job : (j : IssueStatusUpdateJob) (db : Db) → J db → J (add_job j db)
  pub put_job : (j : IssueStatusUpdateJob) (db : Db) → J db → J (put_job j db)
  pub cancel_jobs : (id : Uuid) (db : Db) → J db → J (cancel_jobs id db)
  pub insert_if_absent : (key : Text) (db : Db) → J db → J (insert_if_absent key db)
  pub increment : (key : Text) (db : Db) → J db → J (increment key db)
  pub all_cases : (db : Db) → J db → All C db.cases
  pub all_deliveries : (db : Db) → J db → All (λ d. D d.waiting_on_after_delivery) db.deliveries
  pub same : (a b : Case) → SameState a b → C a → C b
  -- an open issue may take another status
  pub moved :
      (c : Case) (status : CaseStatus)
      → C c
      → c.lifecycle_status ≡ LifecycleStatus.opened
      → status ≢ CaseStatus.closed
      → C (record c { status = status })
  -- an open issue may be handed over
  pub handed :
      (c : Case) (side : WaitingOn)
      → C c
      → c.lifecycle_status ≡ LifecycleStatus.opened
      → D (some side)
      → C (record c { waiting_on = side })
  pub nowhere : D none
  pub to_consult : D (some WaitingOn.consult)
  pub to_dev : D (some WaitingOn.dev)

module _ {J : Db → Type 0} {C : Case → Type 0} {D : Option WaitingOn → Type 0}
    (st : Stable J C D) where
  pub of_case : (p : Case → Bool) (db : Db) {c : Case} → J db → first p db.cases ≡ some c → C c
  of_case p db j e = All-first C p db.cases (st.all_cases db j) e

  pub of_delivery :
      (p : Delivery → Bool) (db : Db) {d : Delivery}
      → J db
      → first p db.deliveries ≡ some d
      → D d.waiting_on_after_delivery
  of_delivery p db j e =
      All-first (λ (d : Delivery). D d.waiting_on_after_delivery) p db.deliveries
        (st.all_deliveries db j) e

-- What `C` has to promise beyond this, so that closing and reopening an issue, and creating one, keep
-- the invariant too.
pub record Closes (C : Case → Type 0) : Type 0 where
  pub closed :
      (old c : Case)
      → C old
      → c.id ≡ old.id
      → c.lifecycle_status ≡ LifecycleStatus.closed
      → c.status ≡ CaseStatus.closed
      → c.waiting_on ≡ WaitingOn.none
      → C c

pub record Reopens (C : Case → Type 0) : Type 0 where
  pub reopened :
      (old c : Case)
      → C old
      → c.id ≡ old.id
      → c.lifecycle_status ≡ LifecycleStatus.opened
      → c.status ≢ CaseStatus.closed
      → c.waiting_on ≢ WaitingOn.none
      → C c

pub record Creates (env : Env) (C : Case → Type 0) : Type 0 where
  pub created :
      (n : ℕ) (c : Case)
      → c.id ≡ env.uuid n
      → c.lifecycle_status ≡ LifecycleStatus.opened
      → c.status ≢ CaseStatus.closed
      → c.waiting_on ≢ WaitingOn.none
      → C c
