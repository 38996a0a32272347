-- ===== src/CaseDesk/StatusJobs.antt =====
-- The status evaluations of src/kefu/case_desk/service.py: the worker leases the queued evaluations
-- of an issue together, and completes or fails the batch. The timeline that it passes to the agent
-- is not built here.
pub mod Claims
pub mod Rest
pub mod Once
pub mod Stale
use message_router.Prelude.{
  ℕ, suc, ◌+◌, ◌-◌, ◌*◌, min, max, Bool, true, false, not, ◌&&◌, ◌||◌, Option, none, some, List, [],
  ◌∷◌, ◌==◌, nat_eq, leb, ltb, if◌then◌else◌, Text, text_eq, codes, option_beq, length, any, all,
  first, select, update, take,
}
use message_router.Models.{
  Uuid, Moment, Case, CaseEntryKind, CaseStatus, EntrySide, WaitingOn, changes, text_change,
  IssueStatusUpdateJob, IssueStatusUpdateState, issue_status_update_state_eq,
}
use message_router.Session.{Db, validation_error}
use message_router.Session.Query.{gets, ensure}
use message_router.Session.Tx.{Tx, query, modify, pure, ◌>>=◌, ◌>>◌}
use message_router.CaseDesk.Timeline.{append_entry, NewEntry}
use message_router.CaseDesk.Metadata.{is_issue_current_status}
use message_router.CaseDesk.Outbox.{second}

pub record IssueStatusUpdateClaim : Type 0 where
  pub id : Uuid
  pub lock_token : Uuid
  pub entry_sequence : ℕ

abbrev pub claim_ids : List IssueStatusUpdateClaim → List Uuid
claim_ids [] = []
claim_ids (c ∷ cs) = c.id ∷ claim_ids cs

-- The keys of a dictionary: `len` counts each once.
abbrev pub distinct : List ℕ → List ℕ
distinct [] = []
distinct (n ∷ ns) = let rest = distinct ns in if any (λ m. m == n) ns then rest else n ∷ rest

abbrev pub job_ids : List IssueStatusUpdateJob → List Uuid
job_ids [] = []
job_ids (j ∷ js) = j.id ∷ job_ids js

abbrev pub job_cases : List IssueStatusUpdateJob → List Uuid
job_cases [] = []
job_cases (j ∷ js) = j.case_id ∷ job_cases js

unfoldable pub put_job : IssueStatusUpdateJob → Db → Db
put_job job db = record db { jobs = update (λ j. j.id == job.id) (λ _. job) db.jobs }

-- The job is processed under the claim's token.
unfoldable pub holds : IssueStatusUpdateClaim → IssueStatusUpdateJob → Bool
holds c j =
    ((j.id == c.id) && (j.state == IssueStatusUpdateState.processing))
    && option_beq j.lock_token (some c.lock_token)

-- One key of the batch: its job is among those selected, under its token. An id is a primary key,
-- so that the first job with it is the only one.
abbrev pub has_token : Uuid → Option IssueStatusUpdateJob → Bool
has_token token none = false
has_token token (some j) = option_beq j.lock_token (some token)

unfoldable pub is_matched : List IssueStatusUpdateJob → IssueStatusUpdateClaim → Bool
is_matched jobs c = has_token c.lock_token (first (λ j. j.id == c.id) jobs)

-- The tests of a batch against the jobs that it selected.
unfoldable pub is_whole_batch : List IssueStatusUpdateClaim → List IssueStatusUpdateJob → Bool
unfolding is_matched
is_whole_batch claims jobs =
    ((length (distinct (job_cases jobs)) == 1)
      && (length (distinct (job_ids jobs)) == length claims))
    && all (is_matched jobs) claims

abbrev pub is_claimed : List IssueStatusUpdateClaim → IssueStatusUpdateJob → Bool
is_claimed claims j = any (λ c. j.id == c.id) claims

abbrev pub has_claimed_token : List IssueStatusUpdateClaim → IssueStatusUpdateJob → Bool
has_claimed_token claims j = any (λ c. option_beq j.lock_token (some c.lock_token)) claims

unfoldable pub jobs_of_case : Uuid → List IssueStatusUpdateClaim → Db → List IssueStatusUpdateJob
jobs_of_case case_id claims db =
    select
      (λ j.
        ((is_claimed claims j && (j.case_id == case_id))
          && (j.state == IssueStatusUpdateState.processing))
        && has_claimed_token claims j)
      db.jobs

abbrev pub completed_job : Moment → IssueStatusUpdateJob → IssueStatusUpdateJob
completed_job now j = record j {
  state = IssueStatusUpdateState.completed;
  completed_at = some now;
  lock_token = none;
  locked_until = none;
  last_error = none;
}

unfoldable pub put_jobs :
    (IssueStatusUpdateJob → IssueStatusUpdateJob) → List IssueStatusUpdateJob → Db → Db
unfolding put_job
put_jobs f [] db = db
put_jobs f (j ∷ js) db = put_jobs f js (put_job (f j) db)

abbrev pub status_entry : Text → Text → NewEntry
status_entry previous_status status = record {
  kind = CaseEntryKind.case_metadata_updated;
  side = EntrySide.system;
  actor_user = none;
  actor_name = some (codes "状态 Agent");
  intent = none;
  source_msgid = none;
  corrects_entry_id = none;
  metadata =
      changes (some (codes "agent_issue_status_update"))
        (text_change (codes "issue_current_status") (some previous_status) (some status) ∷ []);
}

-- The issue takes the agent's status, unless it has it.
unfoldable pub set_agent_status : Bool → Case → Text → ℕ → Tx ℕ
set_agent_status true case status completed_count = pure completed_count
set_agent_status false case status completed_count = do
  append_entry (record case { issue_current_status = status; version = case.version + 1 })
      (status_entry case.issue_current_status status)
  pure completed_count

unfoldable pub complete_batch : Bool → List IssueStatusUpdateJob → Case → Text → Tx ℕ
unfolding set_agent_status put_jobs
complete_batch false jobs case status = pure 0
complete_batch true jobs case status = do
  now ← query (gets (λ env db. env.now))
  modify (put_jobs (completed_job now) jobs)
  set_agent_status (case.issue_current_status == status) case status (length jobs)

unfoldable pub complete_for_case : Option Case → List IssueStatusUpdateClaim → Text → Tx ℕ
unfolding complete_batch jobs_of_case is_whole_batch
complete_for_case none claims status = pure 0
complete_for_case (some case) claims status = do
  jobs ← query (gets (λ env db. jobs_of_case case.id claims db))
  complete_batch (is_whole_batch claims jobs) jobs case status

-- The issue of the first claim's job, if that job is still processed under its token.
unfoldable pub complete_for_job :
    Option IssueStatusUpdateJob → List IssueStatusUpdateClaim → Text → Tx ℕ
unfolding complete_for_case
complete_for_job none claims status = pure 0
complete_for_job (some job) claims status = do
  case ← query (gets (λ env db. first (λ c. c.id == job.case_id) db.cases))
  complete_for_case case claims status

abbrev pub is_distinct : List IssueStatusUpdateClaim → Bool
is_distinct claims = length (distinct (claim_ids claims)) == length claims

unfoldable pub complete_claims : List IssueStatusUpdateClaim → Text → Tx ℕ
unfolding complete_for_job holds
complete_claims [] status = pure 0
complete_claims (claim ∷ claims) status = do
  query (ensure (is_distinct (claim ∷ claims)) validation_error)
  job ← query (gets (λ env db. first (holds claim) db.jobs))
  complete_for_job job (claim ∷ claims) status

unfoldable pub complete_issue_status_update : List IssueStatusUpdateClaim → Text → Tx ℕ
unfolding complete_claims
complete_issue_status_update claims status = do
  query (ensure (is_issue_current_status status) validation_error)
  complete_claims claims status

-- STATUS_UPDATE_RETRY_DELAYS, at `min(attempts - 1, 3)`
unfoldable pub status_retry_delay : ℕ → ℕ
status_retry_delay attempts =
    let index = min (attempts - 1) 3 in
    if index == 0
    then 5 * second
    else if index == 1
    then 30 * second
    else if index == 2
    then 120 * second
    else 300 * second

abbrev pub max_attempts : List IssueStatusUpdateJob → ℕ
max_attempts [] = 0
max_attempts (j ∷ js) = max (j.attempts + 1) (max_attempts js)

abbrev pub retried_job : Moment → Text → IssueStatusUpdateJob → IssueStatusUpdateJob
retried_job next_attempt_at error j = record j {
  attempts = j.attempts + 1;
  state = IssueStatusUpdateState.pending;
  next_attempt_at = next_attempt_at;
  lock_token = none;
  locked_until = none;
  last_error = some (take 2000 error);
}

unfoldable pub processing_jobs : List IssueStatusUpdateClaim → Db → List IssueStatusUpdateJob
processing_jobs claims db =
    select (λ j. is_claimed claims j && (j.state == IssueStatusUpdateState.processing)) db.jobs

unfoldable pub fail_batch : Bool → List IssueStatusUpdateJob → Text → Tx ℕ
unfolding put_jobs status_retry_delay
fail_batch false jobs error = pure 0
fail_batch true jobs error = do
  now ← query (gets (λ env db. env.now))
  modify (put_jobs (retried_job (now + status_retry_delay (max_attempts jobs)) error) jobs)
  pure (length jobs)

unfoldable pub fail_issue_status_update : List IssueStatusUpdateClaim → Text → Tx ℕ
unfolding fail_batch processing_jobs is_whole_batch
fail_issue_status_update [] error = pure 0
fail_issue_status_update (claim ∷ claims) error = do
  query (ensure (is_distinct (claim ∷ claims)) validation_error)
  jobs ← query (gets (λ env db. processing_jobs (claim ∷ claims) db))
  fail_batch (is_whole_batch (claim ∷ claims) jobs) jobs error
