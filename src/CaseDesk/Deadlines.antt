-- ===== src/CaseDesk/Deadlines.antt =====
-- The deadline commands of src/kefu/case_desk/service.py, and `_case_deadline_status`.
-- Moments count microseconds; `datetime` ends with the year 9999.
pub mod Bounds
pub mod Moves
use message_router.Prelude.{
  ℕ, ◌+◌, ◌-◌, ◌*◌, ◌%◌, Bool, true, false, not, ◌&&◌, Option, none, some, [], ◌∷◌, ◌==◌, nat_eq,
  leb, if◌then◌else◌, Text, codes,
}
use message_router.Prelude.Int.{ℤ, pos, negsuc, nat_abs}
use message_router.Models.{
  Uuid, Moment, Case, CaseEntryKind, LifecycleStatus, lifecycle_status_eq, DeadlineStatus,
  EntryMetadata, changes, moment_change, minutes_change,
}
use message_router.Session.{validation_error}
use message_router.Session.Query
use message_router.Session.Query.{Query, ensure, require}
use message_router.Session.Tx.{Tx, query, pure, ◌>>=◌, ◌>>◌}
use message_router.Directory.Lookup.{get_user}
use message_router.CaseDesk.Commands.{CommandResult, GivenTime, naive, aware}
use message_router.CaseDesk.Common.{
  load_case, assert_expected_version, assert_consult_deadline_access, result,
}
use message_router.CaseDesk.Timeline.{append_entry, system_entry}

abbrev pub minute : ℕ
minute = 60_000_000

-- `datetime.max`
abbrev pub max_moment : Moment
max_moment = 315_537_897_599_999_999

abbrev pub min_deadline_increment_minutes : ℕ
min_deadline_increment_minutes = 30

abbrev pub max_deadline_increment_minutes : ℕ
max_deadline_increment_minutes = 2_147_483_640

-- The sum of a `datetime` and a `timedelta(minutes=...)`; `none` is the `OverflowError`
unfoldable pub add_minutes : Moment → ℤ → Option Moment
add_minutes t (pos n) = if leb (t + n * minute) max_moment then some (t + n * minute) else none
add_minutes t (negsuc n) = if leb ((n + 1) * minute) t then some (t - (n + 1) * minute) else none

unfoldable pub case_deadline_status : Case → Moment → Option DeadlineStatus
case_deadline_status case now =
    if case.lifecycle_status == LifecycleStatus.closed
    then none
    else if leb case.deadline now
    then some DeadlineStatus.overdue
    else if leb case.deadline (now + case.approaching_window_minutes * minute)
    then some DeadlineStatus.approaching
    else none

-- `_validated_deadline_minutes`
unfoldable pub validated_deadline_minutes : ℤ → Query ℕ
validated_deadline_minutes (negsuc n) = Query.raise validation_error
validated_deadline_minutes (pos n) =
    Query.◌>>◌
      (ensure
        ((leb min_deadline_increment_minutes n && leb n max_deadline_increment_minutes)
          && (n % min_deadline_increment_minutes == 0))
        validation_error)
      (Query.pure n)

-- `_validated_deadline_adjustment_minutes`
unfoldable pub validated_deadline_adjustment_minutes : ℤ → Query ℤ
validated_deadline_adjustment_minutes value =
    Query.◌>>◌
      (ensure
        ((not (nat_abs value == 0) && leb (nat_abs value) max_deadline_increment_minutes)
          && (nat_abs value % min_deadline_increment_minutes == 0))
        validation_error)
      (Query.pure value)

-- What the four commands test first: the version, that the issue is open, and the access.
unfoldable pub load_for_deadline : Text → ℕ → Uuid → Query Case
load_for_deadline case_ref expected_version actor_id = Query.◌>>=◌ (load_case case_ref) λ case.
    Query.◌>>◌ (assert_expected_version case (some expected_version)) (
      Query.◌>>◌ (ensure (case.lifecycle_status == LifecycleStatus.opened) validation_error)
        (Query.◌>>◌ (assert_consult_deadline_access actor_id case) (Query.pure case)))

-- The change and its entry.
unfoldable pub record_change : Case → Uuid → EntryMetadata → Tx CommandResult
record_change case actor_id metadata = do
  actor_user ← query (get_user actor_id)
  (case', entry) ←
      append_entry case (system_entry CaseEntryKind.case_metadata_updated actor_user metadata)
  pure (result case' (some entry.id) [] false)

-- A sum outside the calendar is refused.
unfoldable pub new_deadline : Case → ℤ → Query Moment
new_deadline case minutes = require (add_minutes case.deadline minutes) validation_error

-- `_adjust_case_deadline`, behind the validation of the command's minutes
unfoldable pub move_deadline : Case → Uuid → Text → ℤ → Tx CommandResult
unfolding record_change new_deadline
move_deadline case actor_id name minutes = do
  query (get_user actor_id)
  deadline ← query (new_deadline case minutes)
  record_change (record case { deadline = deadline; version = case.version + 1 }) actor_id
      (changes (some name) (moment_change case.deadline deadline ∷ []))

unfoldable pub adjust_case_deadline : Text → ℕ → ℤ → Uuid → Tx CommandResult
unfolding move_deadline
adjust_case_deadline case_ref expected_version adjustment_minutes actor_id = do
  case ← query (load_for_deadline case_ref expected_version actor_id)
  minutes ← query (validated_deadline_adjustment_minutes adjustment_minutes)
  move_deadline case actor_id (codes "adjust_deadline") minutes

unfoldable pub extend_case_deadline : Text → ℕ → ℤ → Uuid → Tx CommandResult
unfolding move_deadline
extend_case_deadline case_ref expected_version extension_minutes actor_id = do
  case ← query (load_for_deadline case_ref expected_version actor_id)
  minutes ← query (validated_deadline_minutes extension_minutes)
  move_deadline case actor_id (codes "extend_deadline") (pos minutes)

abbrev pub aware_time : GivenTime → Option Moment
aware_time naive = none
aware_time (aware t) = some t

unfoldable pub replace_deadline : Bool → Case → Moment → Uuid → Tx CommandResult
unfolding record_change
replace_deadline true case given_deadline actor_id = pure (result case none [] false)
replace_deadline false case given_deadline actor_id =
    record_change (record case { deadline = given_deadline; version = case.version + 1 }) actor_id
      (changes (some (codes "set_deadline")) (moment_change case.deadline given_deadline ∷ []))

unfoldable pub set_case_deadline : Text → ℕ → GivenTime → Uuid → Tx CommandResult
unfolding replace_deadline
set_case_deadline case_ref expected_version deadline actor_id = do
  case ← query (load_for_deadline case_ref expected_version actor_id)
  given_deadline ← query (require (aware_time deadline) validation_error)
  replace_deadline (case.deadline == given_deadline) case given_deadline actor_id

unfoldable pub replace_window : Bool → Case → ℕ → Uuid → Tx CommandResult
unfolding record_change
replace_window true case minutes actor_id = pure (result case none [] false)
replace_window false case minutes actor_id =
    record_change (record case { approaching_window_minutes = minutes; version = case.version + 1 })
      actor_id
      (changes (some (codes "set_approaching_window"))
        (minutes_change case.approaching_window_minutes minutes ∷ []))

unfoldable pub set_case_approaching_window : Text → ℕ → ℤ → Uuid → Tx CommandResult
unfolding replace_window
set_case_approaching_window case_ref expected_version approaching_window_minutes actor_id = do
  case ← query (load_for_deadline case_ref expected_version actor_id)
  minutes ← query (validated_deadline_minutes approaching_window_minutes)
  replace_window (minutes == case.approaching_window_minutes) case minutes actor_id
