-- ===== src/CaseDesk/StatusJobs/Claims.antt =====
-- `claim_pending_issue_status_updates` of src/kefu/case_desk/service.py, less the text of the timeline.
-- Rows that the statement's order does not tell apart stay in the order of the table.
pub mod Leases
pub mod Exclusive
use message_router.Prelude.{
  ℕ, ◌+◌, max, Bool, true, false, not, ◌&&◌, ◌||◌, Option, none, some, List, [], ◌∷◌, ◌++◌, ◌==◌,
  nat_eq, leb, ltb, if◌then◌else◌, Text, any, first, select, take,
}
use message_router.Models.{
  Uuid, Moment, Case, CaseStatus, WaitingOn, IssueStatusUpdateJob, IssueStatusUpdateState,
  issue_status_update_state_eq,
}
use message_router.Session.{Db, validation_error}
use message_router.Session.Query.{gets, ensure}
use message_router.Session.Tx.{Tx, query, modify, uuid4, pure, ◌>>=◌, ◌>>◌}
use message_router.CaseDesk.Leasing.{is_free, sort_by}
use message_router.CaseDesk.StatusJobs.{IssueStatusUpdateClaim, put_job}

pub record IssueStatusUpdateWork : Type 0 where
  pub case_id : Uuid
  pub id : Uuid
  pub claims : List IssueStatusUpdateClaim
  pub case_ref : Text
  pub entry_sequence : ℕ
  pub trigger_sequences : List ℕ
  pub title : Text
  pub issue_description : Option Text
  pub suspected_type : Option Text
  pub current_situation : Option Text
  pub current_status : Text
  pub workflow_status : CaseStatus
  pub waiting_on : WaitingOn

unfoldable pub is_active : IssueStatusUpdateJob → Bool
is_active j =
    (j.state == IssueStatusUpdateState.pending) || (j.state == IssueStatusUpdateState.processing)

-- An evaluation of the same issue, for an earlier entry, is still to be done.
unfoldable pub has_earlier_job : IssueStatusUpdateJob → Db → Bool
unfolding is_active
has_earlier_job j db =
    any
      (λ earlier.
        ((earlier.case_id == j.case_id) && ltb earlier.entry_sequence j.entry_sequence)
        && is_active earlier)
      db.jobs

unfoldable pub is_claimable : Moment → IssueStatusUpdateJob → Bool
is_claimable now j =
    (((j.state == IssueStatusUpdateState.pending) && leb j.next_attempt_at now)
      && is_free now j.locked_until)
    || ((j.state == IssueStatusUpdateState.processing) && is_free now j.locked_until)

-- The join of the jobs with their issues.
pub record JobRow : Type 0 where
  pub job : IssueStatusUpdateJob
  pub case : Case

abbrev pub join_job : IssueStatusUpdateJob → Option Case → List JobRow → List JobRow
join_job j none rest = rest
join_job j (some c) rest = record { job = j; case = c } ∷ rest

unfoldable pub joined_jobs : Db → List IssueStatusUpdateJob → List JobRow
joined_jobs db [] = []
joined_jobs db (j ∷ js) = join_job j (first (λ c. c.id == j.case_id) db.cases) (joined_jobs db js)

abbrev pub is_earlier_row : JobRow → JobRow → Bool
is_earlier_row a b =
    ltb a.job.next_attempt_at b.job.next_attempt_at
    || ((a.job.next_attempt_at == b.job.next_attempt_at) && leb a.job.created_at b.job.created_at)

-- The rows of the first statement, before their limit.
unfoldable pub claimable_rows : Moment → Db → List JobRow
unfolding joined_jobs sort_by is_claimable has_earlier_job
claimable_rows now db =
    sort_by is_earlier_row
      (joined_jobs db (select (λ j. is_claimable now j && not (has_earlier_job j db)) db.jobs))

abbrev pub is_held : Moment → Option Moment → Bool
is_held now none = false
is_held now (some locked_until) = leb now locked_until

-- A worker holds an evaluation of the issue.
unfoldable pub has_active_lease : Moment → Uuid → Db → Bool
has_active_lease now case_id db =
    any
      (λ j.
        ((j.case_id == case_id) && (j.state == IssueStatusUpdateState.processing))
        && is_held now j.locked_until)
      db.jobs

abbrev pub is_earlier_job : IssueStatusUpdateJob → IssueStatusUpdateJob → Bool
is_earlier_job a b =
    ltb a.entry_sequence b.entry_sequence
    || ((a.entry_sequence == b.entry_sequence) && leb a.created_at b.created_at)

unfoldable pub active_jobs : Case → Db → List IssueStatusUpdateJob
unfolding sort_by is_active
active_jobs case db = sort_by is_earlier_job (
    select
      (λ j.
        ((j.case_id == case.id) && leb j.entry_sequence case.last_entry_sequence) && is_active j)
      db.jobs)

abbrev pub leased_job : Uuid → Moment → IssueStatusUpdateJob → IssueStatusUpdateJob
leased_job token until j = record j {
  state = IssueStatusUpdateState.processing;
  lock_token = some token;
  locked_until = some until;
}

unfoldable pub claim_each : Moment → List IssueStatusUpdateJob → Tx (List IssueStatusUpdateClaim)
claim_each until [] = pure []
claim_each until (j ∷ js) = do
  token ← uuid4
  modify (put_job (leased_job token until j))
  rest ← claim_each until js
  pure (record { id = j.id; lock_token = token; entry_sequence = j.entry_sequence } ∷ rest)

abbrev pub trigger_sequences : List IssueStatusUpdateClaim → List ℕ
trigger_sequences [] = []
trigger_sequences (c ∷ cs) = c.entry_sequence ∷ trigger_sequences cs

abbrev pub max_sequence : List IssueStatusUpdateClaim → ℕ
max_sequence [] = 0
max_sequence (c ∷ cs) = max c.entry_sequence (max_sequence cs)

abbrev pub work_of : Case → List IssueStatusUpdateClaim → List IssueStatusUpdateWork
work_of case [] = []
work_of case (c ∷ cs) =
    record {
      case_id = case.id;
      id = c.id;
      claims = c ∷ cs;
      case_ref = case.case_ref;
      entry_sequence = max_sequence (c ∷ cs);
      trigger_sequences = trigger_sequences (c ∷ cs);
      title = case.title;
      issue_description = case.issue_description;
      suspected_type = case.suspected_type;
      current_situation = case.issue_current_situation;
      current_status = case.issue_current_status;
      workflow_status = case.status;
      waiting_on = case.waiting_on;
    }
    ∷ []

-- What one issue contributes: nothing while a worker holds it, and nothing without jobs.
unfoldable pub claim_issue : Bool → Moment → Case → Tx (List IssueStatusUpdateWork)
unfolding claim_each active_jobs
claim_issue true until case = pure []
claim_issue false until case = do
  jobs ← query (gets (λ env db. active_jobs case db))
  claims ← claim_each until jobs
  pure (work_of case claims)

-- `claimed_case_ids`: each issue is claimed for its first row only.
unfoldable pub unclaimed_cases : List Uuid → List JobRow → List Case
unclaimed_cases claimed [] = []
unclaimed_cases claimed (row ∷ rows) =
    let seen = unclaimed_cases claimed rows in
    let new = unclaimed_cases (row.case.id ∷ claimed) rows in
    if any (λ id. id == row.case.id) claimed then seen else row.case ∷ new

unfoldable pub claim_issues : Moment → List Case → Tx (List IssueStatusUpdateWork)
unfolding claim_issue has_active_lease
claim_issues until [] = pure []
claim_issues until (case ∷ cases) = do
  held ← query (gets (λ env db. has_active_lease env.now case.id db))
  work ← claim_issue held until case
  rest ← claim_issues until cases
  pure (work ++ rest)

unfoldable pub claim_pending_issue_status_updates : ℕ → Moment → Tx (List IssueStatusUpdateWork)
unfolding claimable_rows unclaimed_cases claim_issues
claim_pending_issue_status_updates limit lease = do
  query (ensure (leb 1 limit) validation_error)
  now ← query (gets (λ env db. env.now))
  rows ← query (gets (λ env db. claimable_rows now db))
  claim_issues (now + lease) (unclaimed_cases [] (take limit rows))
