-- ===== src/Witnesses.antt =====
-- The theorems at the sample deployment, and runs of the code there.
mod Replies
mod Evaluations
mod System
mod Inspection
mod WebAuth
mod Recipients
mod Reports
mod Deadlines
use message_router.Prelude.{
  select, All, map, ◌≡◌, ◌≢◌, refl, true, some, List, [], ◌∷◌, ◌++◌, Text, codes, inr, arith, all,
  length, strip, lstrip, rstrip, is_space, any, first, update, list_beq, ◌⊎◌, ◌≤◌, ◌↔◌, ◌%◌,
}
use message_router.Prelude.Int.{pos, negsuc}
use message_router.Models.{
  Case, Moment, CaseStatus, LifecycleStatus, CaseEntry, returned, DeliveryStatus,
}
use message_router.Session.{Env, ok, err, conflict}
use message_router.Session.Query
use message_router.Session.Query.{ensure}
use message_router.Session.Tx
use message_router.Session.Tx.{transact, Session}
use message_router.Directory.Lookup.{
  is_member, get_user, get_user_if, user_by_id, is_global_admin, active_membership, is_current,
}
use message_router.Directory.Access.{assert_consult_manager, assert_case_visible}
use message_router.Markers.{
  upper, upper_char, is_crockford, normalize_case_ref, new_case_ref, default_case_ref_length,
}
use message_router.Markers.Normalized.{normalize_case_ref-normalized, new_case_ref-normalized}
use message_router.Numbering.{next_bug_number, next_bug_number_with_row_lock}
use message_router.Numbering.Counter.{next_bug_number-row_lock, next_bug_number-distinct}
use message_router.CaseDesk.Commands.{
  Command, person, system_actor, close_case, set_case_status, delivery_item_succeeded,
  delivery_item_failed, CommandResult,
}
use message_router.CaseDesk.Timeline.{append_entry, actor_name_snapshot, add_entry}
use message_router.CaseDesk.Common.{
  load_case, assert_expected_version, assert_open, save_case, put_case, result,
}
use message_router.CaseDesk.Deadlines.{add_minutes, max_moment, validated_deadline_minutes}
use message_router.CaseDesk.Workflow
use message_router.CaseDesk.Workflow.{may_move, wants_developer}
use message_router.CaseDesk.Workflow.Transitions.{Outcome, set_case_status-moves}
use message_router.CaseDesk.Outbox.{
  put_delivery, delivery_context, delivery_by_id, entry_of, case_of, assert_delivery_lease,
  delivery_item,
}
use message_router.CaseDesk.Outbox.Leases.{report-lost_lease}
use message_router.CaseDesk.Leasing.{
  DeliveryWork, claim_pending_deliveries, due_rows, joined, sort_by, insert_by, is_due, claim_rows,
  claim_row, pending_items, work_items,
}
use message_router.CaseDesk.Leasing.Total.{claim_pending_deliveries-returns}
use message_router.CaseDesk.Leasing.Exclusive.{claim_pending_deliveries-exclusive}
use message_router.CaseDesk.Execute.{handler, execute}
use message_router.CaseDesk.Authorization.{authorization, execute-Authorized}
use message_router.CaseDesk.Versions.{execute-conflict}
use message_router.CaseDesk.Invariants.AppendOnly.{execute-Extends}
use message_router.CaseDesk.Invariants.Lifecycle.{IsSound, execute-IsSound}
use message_router.CaseDesk.Invariants.Organization.{SameOrganization, execute-SameOrganization}
use message_router.Samples.{env, db, session, issue, bundle, leased, sent_item}

abbrev closing : Command
closing = close_case (codes "ABCD123") 3

db-IsSound : IsSound db
db-IsSound = record { cases = (inr (refl, (λ e. cc), (λ e. cc)), tt); deliveries = ((λ e. cc), tt) }

execute-IsSound_example : IsSound (execute closing (person 1) env db).1
execute-IsSound_example = execute-IsSound closing (person 1) env db db-IsSound

execute-Extends_example :
    (new : List CaseEntry) × ((execute closing (person 1) env db).1.entries ≡ db.entries ++ new)
execute-Extends_example = execute-Extends closing (person 1) env db

execute-SameOrganization_example : SameOrganization db (execute closing (person 1) env db).1
execute-SameOrganization_example = execute-SameOrganization closing (person 1) env db

loaded : load_case (codes "ABCD123") env db ≡ ok issue
unfolding load_case normalize_case_ref upper upper_char strip lstrip rstrip is_space is_crockford
    any all first list_beq Query.◌>>=◌ ensure
loaded = refl

execute-conflict_example :
    execute (close_case (codes "ABCD123") 2) (person 1) env db ≡ (err conflict, db)
execute-conflict_example =
    execute-conflict (close_case (codes "ABCD123") 2) 1 env db (codes "ABCD123") 2 issue refl loaded
      refl (λ e. omega (arith, e))

-- The developer takes the issue on.
taken_on :
    (r : CommandResult) × (after : Session) × (Workflow.set_case_status
        (codes "ABCD123")
        3
        CaseStatus.in_progress
        2
        env
        session
      ≡ ok (r, after))
unfolding Workflow.set_case_status load_case normalize_case_ref upper upper_char strip lstrip rstrip
    is_space is_crockford any all first update list_beq assert_expected_version assert_case_visible
    get_user get_user_if user_by_id is_global_admin is_member active_membership is_current
    assert_open may_move wants_developer Workflow.change_status append_entry actor_name_snapshot
    add_entry save_case put_case ensure Query.◌>>=◌ Tx.◌>>=◌
taken_on = (_, _, refl)

-- The same, as a command.
executed :
    (r : CommandResult) × ((execute
        (set_case_status (codes "ABCD123") 3 CaseStatus.in_progress)
        (person 2)
        env
        db).0
      ≡ ok r)
unfolding execute handler transact Workflow.set_case_status load_case normalize_case_ref upper
    upper_char strip lstrip rstrip is_space is_crockford any all first update list_beq
    assert_expected_version assert_case_visible get_user get_user_if user_by_id is_global_admin
    is_member active_membership is_current assert_open may_move wants_developer
    Workflow.change_status append_entry actor_name_snapshot add_entry save_case put_case ensure
    Query.◌>>=◌ Tx.◌>>=◌
executed = (_, refl)

execute-Authorized_example :
    (case : Case) × (load_case (codes "ABCD123") env db ≡ ok case)
    × (case.version ≡ 3)
    × (authorization (set_case_status (codes "ABCD123") 3 CaseStatus.in_progress) 2 case env db
        ≡ ok tt)
execute-Authorized_example =
    execute-Authorized (set_case_status (codes "ABCD123") 3 CaseStatus.in_progress) 2 env db
      (codes "ABCD123") 3 executed.0 refl executed.1

set_case_status-moves_example :
    (case : Case) × (load_case (codes "ABCD123") env db ≡ ok case)
    × (case.version ≡ 3)
    × (case.lifecycle_status ≡ LifecycleStatus.opened)
    × (assert_case_visible 2 case env db ≡ ok tt)
    × (CaseStatus.in_progress ≢ CaseStatus.closed)
    × (CaseStatus.in_progress ≢ CaseStatus.pending_confirmation)
    × Outcome case CaseStatus.in_progress 2 env session taken_on.1 taken_on.0
    × ((CaseStatus.in_progress ≢ CaseStatus.waiting_customer)
        ⊎ (assert_consult_manager 2 case env db ≡ ok tt))
set_case_status-moves_example =
    set_case_status-moves (codes "ABCD123") 3 CaseStatus.in_progress 2 env session taken_on.1
      taken_on.0 taken_on.2

-- A second after the sample's lease has ended.
abbrev later : Env
later = record env { now = 3_000_000_000 }

claimed :
    (ws : List DeliveryWork) × (after : Session) × (claim_pending_deliveries 10 60_000_000 later
        session
      ≡ ok (ws, after))
unfolding claim_pending_deliveries due_rows joined sort_by insert_by is_due select first any
    claim_rows claim_row put_delivery update pending_items work_items ensure Query.gets Tx.◌>>=◌
claimed = (_, _, refl)

claimed_ids : map (λ w. w.id) claimed.0 ≡ 300 ∷ []
unfolding claimed
claimed_ids = refl

claimed_again :
    (ws : List DeliveryWork) × (after : Session) × (claim_pending_deliveries 10 60_000_000 later
        claimed.1
      ≡ ok (ws, after))
unfolding claimed claim_pending_deliveries due_rows joined sort_by insert_by is_due select first any
    claim_rows claim_row put_delivery update pending_items work_items ensure Query.gets Tx.◌>>=◌
claimed_again = (_, _, refl)

claim_pending_deliveries-returns_example :
    (ws : List DeliveryWork) × (after : Session) × (claim_pending_deliveries 1 60_000_000 later
        session
      ≡ ok (ws, after))
    × (length ws ≤ 1)
claim_pending_deliveries-returns_example =
    claim_pending_deliveries-returns 1 60_000_000 later session (omega arith)

claim_pending_deliveries-exclusive_example :
    All (λ (w : DeliveryWork). All (λ (w' : DeliveryWork). w'.id ≢ w.id) claimed_again.0) claimed.0
claim_pending_deliveries-exclusive_example =
    claim_pending_deliveries-exclusive 10 10 60_000_000 60_000_000 later later session claimed.1
      claimed_again.1 claimed.0 claimed_again.0 claimed.2 claimed_again.2 (omega arith)

leased_context : delivery_context 300 env db ≡ ok leased
unfolding delivery_context delivery_by_id entry_of case_of Query.◌>>=◌ first
leased_context = refl

report-lost_lease_example :
    (execute (delivery_item_succeeded 300 401 78 (returned (codes "{}"))) system_actor env db
      ≡ (err conflict, db))
    × (execute (delivery_item_failed 300 401 78 (codes "timeout")) system_actor env db
        ≡ (err conflict, db))
report-lost_lease_example =
    report-lost_lease 300 401 78 env db leased leased_context (returned (codes "{}"))
      (codes "timeout") (λ e. cc) (λ e. ground arith)

next_bug_number-row_lock_example :
    next_bug_number 5 env session ≡ next_bug_number_with_row_lock 5 env session
next_bug_number-row_lock_example = next_bug_number-row_lock 5 env session

next_bug_number-distinct_example :
    (first_number : Text) × (between : Session) × (second_number : Text) × (after : Session)
    × (next_bug_number 5 env session ≡ ok (first_number, between))
    × (next_bug_number 6 env between ≡ ok (second_number, after))
    × (first_number ≢ second_number)
next_bug_number-distinct_example = next_bug_number-distinct 5 6 env session refl

new_case_ref-normalized_example :
    (ref : Text) × (after : Session) × (new_case_ref default_case_ref_length env session
      ≡ ok (ref, after))
    × (normalize_case_ref ref env after.db ≡ ok ref)
new_case_ref-normalized_example = new_case_ref-normalized env session (λ i. omega arith)

lower_case : normalize_case_ref (codes " abcd123 ") env db ≡ ok (codes "ABCD123")
unfolding normalize_case_ref upper upper_char strip lstrip rstrip is_space is_crockford any all
    Query.◌>>=◌ ensure
lower_case = refl

normalize_case_ref-normalized_example :
    (length (codes "ABCD123") ≡ 7)
    × (all is_crockford (codes "ABCD123") ≡ true)
    × (normalize_case_ref (codes "ABCD123") env db ≡ ok (codes "ABCD123"))
normalize_case_ref-normalized_example =
    normalize_case_ref-normalized (codes " abcd123 ") (codes "ABCD123") env db db lower_case
