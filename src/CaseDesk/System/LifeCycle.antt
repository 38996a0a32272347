-- ===== src/CaseDesk/System/LifeCycle.antt =====
-- The life cycle of an issue, as an abstract machine that the case desk of
-- src/kefu/case_desk/service.py refines: only creating, closing and reopening move it.
pub mod Kept
pub mod Refines
use message_router.Prelude.{
  ℕ, ◌≡◌, ◌≢◌, refl, sym, ap, ◌∙◌, subst, Bool, true, false, Option, none, some, List, [], ◌∷◌,
  ◌++◌, ◌==◌, nat_eq, first, update, All, All-append, All-update, Bool-cases, ◌⊎◌, inl, inr, arith,
  Text,
}
use message_router.Models.{Uuid, Case, CaseStatus, LifecycleStatus, WaitingOn, Delivery}
use message_router.Session.{Db, Env}
use message_router.Session.Tx.Rules.{Any, All-Any}
use message_router.Numbering.{insert_if_absent, increment, is_none, sequence_of}
use message_router.CaseDesk.Commands.{Command, create_case, close_case, reopen_case}
use message_router.CaseDesk.Common.{put_case}
use message_router.CaseDesk.Timeline.{add_entry, add_part}
use message_router.CaseDesk.Outgoing.{add_delivery, add_item}
use message_router.CaseDesk.Metadata.{cancel_jobs}
use message_router.CaseDesk.Messages.{add_job}
use message_router.CaseDesk.Creation.{add_case}
use message_router.CaseDesk.Outbox.{put_delivery, put_item}
use message_router.CaseDesk.Deferred.{put_items}
use message_router.CaseDesk.StatusJobs.{put_job}
use message_router.CaseDesk.Invariants.Stable.{Stable, SameState, Closes, Reopens, Creates}
use message_router.CaseDesk.Invariants.Commands.{Needs}
use message_router.CaseDesk.System.{Operation, command_executed, perform}
use message_router.CaseDesk.System.Reached.{OperationNeeds, perform-keeps}

pub data Event : Type 0 where
  creating closing reopening other : Event

-- What the abstract machine sees of an issue: that it is not there, or its lifecycle.
abbrev pub View : Type 0
View = Option LifecycleStatus

-- One move of the abstract machine.
abbrev pub Move : Event → View → View → Type 0
Move creating v w = (v ≡ w) ⊎ ((v ≡ none) × (w ≡ some LifecycleStatus.opened))
Move closing v w = (v ≡ w) ⊎ ((v ≡ some LifecycleStatus.opened) × (w ≡ some LifecycleStatus.closed))
Move reopening v w =
    (v ≡ w) ⊎ ((v ≡ some LifecycleStatus.closed) × (w ≡ some LifecycleStatus.opened))
Move other v w = v ≡ w

abbrev pub event_of_command : Command → Event
event_of_command (create_case c) = creating
event_of_command (close_case ref v) = closing
event_of_command (reopen_case ref v w) = reopening
event_of_command _ = other

abbrev pub event_of : Operation → Event
event_of (command_executed command actor) = event_of_command command
event_of _ = other

abbrev pub lifecycle_of : Option Case → View
lifecycle_of none = none
lifecycle_of (some c) = some c.lifecycle_status

unfoldable pub view_in : Uuid → List Case → View
view_in id cases = lifecycle_of (first (λ c. c.id == id) cases)

abbrev pub view : Uuid → Db → View
view id db = view_in id db.cases

-- The ids of the issues are keys: the row that an id finds is the one that has it.
abbrev pub IsKeyed : Db → Type 0
IsKeyed db = All (λ c. view c.id db ≡ some c.lifecycle_status) db.cases

-- The UUIDs to be drawn are no issue's yet.
abbrev pub AreFresh : Env → Db → Type 0
AreFresh env db = (n : ℕ) → view (env.uuid n) db ≡ none

-- What a write of an issue shows: the old view, or the view of what was written.
abbrev pub Written : Uuid → Case → View → View → Type 0
Written id c v w = (w ≡ v) ⊎ ((c.id ≡ id) × (w ≡ some c.lifecycle_status))

pub update-Written :
    (id : Uuid) (c : Case) (cases : List Case)
    → Written id c (view_in id cases) (view_in id (update (λ x. x.id == c.id) (λ _. c) cases))
unfolding view_in first update
update-Written id c [] = inl refl
update-Written id c (x ∷ xs) = elim (Bool-cases (x.id == c.id)) [
  | inl t ↦ elim (Bool-cases (c.id == id)) [
    | inl s ↦ rw t (rw s (inr (ground arith, refl)))
    | inr n ↦
        let n' : (x.id == id) ≡ false = ground arith in rw t (rw n (rw n' (update-Written id c xs)))
  ]
  | inr n ↦ elim (Bool-cases (x.id == id)) [
    | inl s ↦ rw n (rw s (inl refl))
    | inr m ↦ rw n (rw m (update-Written id c xs))
  ]
]

pub append-Written :
    (id : Uuid) (c : Case) (cases : List Case)
    → Written id c (view_in id cases) (view_in id (cases ++ c ∷ []))
unfolding view_in first
append-Written id c [] = elim (Bool-cases (c.id == id)) [
  | inl s ↦ rw s (inr (ground arith, refl))
  | inr n ↦ rw n (inl refl)
]
append-Written id c (x ∷ xs) = elim (Bool-cases (x.id == id)) [
  | inl s ↦ rw s (inl refl)
  | inr m ↦ rw m (append-Written id c xs)
]
