-- ===== src/CaseDesk/StatusJobs/Once.antt =====
-- A batch of status evaluations of src/kefu/case_desk/service.py is reported once.
use message_router.Prelude.{
  ℕ, ◌+◌, ◌≡◌, refl, ap, Bool, true, false, Option, none, some, List, ◌∷◌, ◌==◌, nat_eq, text_eq,
  Text, length, first, all, Bool-cases, ◌⊎◌, inl, inr, arith,
}
use message_router.Models.{Uuid, Case, IssueStatusUpdateJob, issue_status_update_state_eq}
use message_router.Session.{Db, Env, Result, ok}
use message_router.Session.Query.{gets, ensure, require}
use message_router.Session.Tx.{Session, Tx, transact, commit, ◌>>=◌}
use message_router.CaseDesk.Common.{save_case, put_case}
use message_router.CaseDesk.Timeline.{append_entry, add_entry, actor_name_snapshot}
use message_router.CaseDesk.Metadata.{is_issue_current_status}
use message_router.CaseDesk.StatusJobs.{
  IssueStatusUpdateClaim, put_jobs, holds, is_matched, is_whole_batch, is_distinct, jobs_of_case,
  processing_jobs, completed_job, retried_job, status_retry_delay, max_attempts, set_agent_status,
  complete_batch, complete_for_case, complete_for_job, complete_claims,
  complete_issue_status_update, fail_batch, fail_issue_status_update,
}
use message_router.CaseDesk.StatusJobs.Rest.{
  AtRest, put_jobs-AtRest, whole-matched, rest-holds, rest-unmatched,
}

-- The batch has no effect, or puts its first job at rest.
abbrev Outcome : Uuid → Session → Result (ℕ × Session) → Type 0
Outcome id s r = (r ≡ ok (0, s)) ⊎ ((n : ℕ) × (t : Session) × (r ≡ ok (n, t)) × AtRest id t.db)

set_agent_status-returns :
    (same : Bool) (case : Case) (status : Text) (n : ℕ) (env : Env) (s : Session)
    → (t : Session) × (set_agent_status same case status n env s ≡ ok (n, t))
      × (t.db.jobs ≡ s.db.jobs)
unfolding set_agent_status append_entry actor_name_snapshot add_entry save_case put_case ◌>>=◌
    require
set_agent_status-returns true case status n env s = (s, refl, refl)
set_agent_status-returns false case status n env s = (_, refl, refl)

complete_batch-Outcome :
    (c : IssueStatusUpdateClaim) (cs : List IssueStatusUpdateClaim) (js : List IssueStatusUpdateJob)
    (case : Case) (status : Text) (env : Env) (s : Session)
    → Outcome c.id s (complete_batch (is_whole_batch (c ∷ cs) js) js case status env s)
unfolding complete_batch ◌>>=◌ gets
complete_batch-Outcome c cs js case status env s = elim (Bool-cases (is_whole_batch (c ∷ cs) js)) [
  | inl b ↦
      let db = put_jobs (completed_job env.now) js s.db in
      let (t, e, same) =
        set_agent_status-returns (case.issue_current_status == status) case status (length js) env
          (record s { db = db }) in
      let rest : AtRest c.id db =
        put_jobs-AtRest (completed_job env.now) (λ j e. cc) (λ j. refl) c.id c.lock_token js s.db
          (whole-matched c cs js b) in
      inr (length js, t, rw b e, rw same rest)
  | inr n ↦ inl (rw n refl)
]

complete_for_case-Outcome :
    (c : IssueStatusUpdateClaim) (cs : List IssueStatusUpdateClaim) (case : Option Case)
    (status : Text) (env : Env) (s : Session)
    → Outcome c.id s (complete_for_case case (c ∷ cs) status env s)
unfolding complete_for_case ◌>>=◌ gets
complete_for_case-Outcome c cs none status env s = inl refl
complete_for_case-Outcome c cs (some case) status env s =
    complete_batch-Outcome c cs (jobs_of_case case.id (c ∷ cs) s.db) case status env s

complete_for_job-Outcome :
    (c : IssueStatusUpdateClaim) (cs : List IssueStatusUpdateClaim)
    (job : Option IssueStatusUpdateJob) (status : Text) (env : Env) (s : Session)
    → Outcome c.id s (complete_for_job job (c ∷ cs) status env s)
unfolding complete_for_job ◌>>=◌ gets
complete_for_job-Outcome c cs none status env s = inl refl
complete_for_job-Outcome c cs (some job) status env s =
    complete_for_case-Outcome c cs (first (λ x. x.id == job.case_id) s.db.cases) status env s

complete-Outcome :
    (c : IssueStatusUpdateClaim) (cs : List IssueStatusUpdateClaim) (status : Text) (env : Env)
    (s : Session)
    → is_issue_current_status status ≡ true
    → is_distinct (c ∷ cs) ≡ true
    → Outcome c.id s (complete_issue_status_update (c ∷ cs) status env s)
unfolding complete_issue_status_update complete_claims ◌>>=◌ gets ensure
complete-Outcome c cs status env s valid distinct_ids =
    rw valid
      (rw distinct_ids (complete_for_job-Outcome c cs (first (holds c) s.db.jobs) status env s))

fail-Outcome :
    (c : IssueStatusUpdateClaim) (cs : List IssueStatusUpdateClaim) (error : Text) (env : Env)
    (s : Session)
    → is_distinct (c ∷ cs) ≡ true
    → Outcome c.id s (fail_issue_status_update (c ∷ cs) error env s)
unfolding fail_issue_status_update fail_batch ◌>>=◌ gets ensure
fail-Outcome c cs error env s distinct_ids =
    let js = processing_jobs (c ∷ cs) s.db in
    let next = env.now + status_retry_delay (max_attempts js) in
    rw distinct_ids (elim (Bool-cases (is_whole_batch (c ∷ cs) js)) [
      | inl b ↦ inr (
        length js,
        record s { db = put_jobs (retried_job next error) js s.db },
        rw b refl,
        put_jobs-AtRest (retried_job next error) (λ j e. cc) (λ j. refl) c.id c.lock_token js s.db
            (whole-matched c cs js b),
      )
      | inr n ↦ inl (rw n refl)
    ])

-- Where the id of the first claim is at rest, neither report does anything.
idle_completion :
    (c : IssueStatusUpdateClaim) (cs : List IssueStatusUpdateClaim) (status : Text) (env : Env)
    (s : Session)
    → is_issue_current_status status ≡ true
    → is_distinct (c ∷ cs) ≡ true
    → AtRest c.id s.db
    → complete_issue_status_update (c ∷ cs) status env s ≡ ok (0, s)
unfolding complete_issue_status_update complete_claims complete_for_job ◌>>=◌ gets ensure
idle_completion c cs status env s valid distinct_ids h =
    rw valid (rw distinct_ids (rw (rest-holds c s.db.jobs h) refl))

idle-fail :
    (c : IssueStatusUpdateClaim) (cs : List IssueStatusUpdateClaim) (error : Text) (env : Env)
    (s : Session)
    → is_distinct (c ∷ cs) ≡ true
    → AtRest c.id s.db
    → fail_issue_status_update (c ∷ cs) error env s ≡ ok (0, s)
unfolding fail_issue_status_update fail_batch processing_jobs is_whole_batch is_matched all ◌>>=◌
    gets ensure
idle-fail c cs error env s distinct_ids h =
    let js = processing_jobs (c ∷ cs) s.db in
    let unmatched : is_matched js c ≡ false = rw (rest-unmatched c (c ∷ cs) s.db.jobs h) refl in
    let partial : is_whole_batch (c ∷ cs) js ≡ false = ground arith in
    rw distinct_ids (rw partial refl)

-- Both reports on the claims, sent from now on, count 0 and leave the tables as they are.
abbrev pub NoEffect : List IssueStatusUpdateClaim → Text → Text → Env → Db → Type 0
NoEffect claims status error env db =
    (transact (complete_issue_status_update claims status) env db ≡ (ok 0, db))
    × (transact (fail_issue_status_update claims error) env db ≡ (ok 0, db))

idle-NoEffect :
    (c : IssueStatusUpdateClaim) (cs : List IssueStatusUpdateClaim) (status error : Text)
    (env : Env) (db : Db)
    → is_issue_current_status status ≡ true
    → is_distinct (c ∷ cs) ≡ true
    → AtRest c.id db
    → NoEffect (c ∷ cs) status error env db
unfolding transact
idle-NoEffect c cs status error env db valid distinct_ids h =
    let start : Session = record { db = db; drawn = 0; chosen = 0 } in
    (
      ap (λ r. commit r db) (idle_completion c cs status env start valid distinct_ids h),
      ap (λ r. commit r db) (idle-fail c cs error env start distinct_ids h),
    )

-- A report that counted 0 and left the tables as they are, or after which none has an effect.
abbrev pub ReportedOnce :
    List IssueStatusUpdateClaim → Text → Text → Env → Db → Result ℕ × Db → Type 0
ReportedOnce claims status error env db r =
    (n : ℕ) × (r.0 ≡ ok n) × (((n ≡ 0) × (r.1 ≡ db)) ⊎ NoEffect claims status error env r.1)

Outcome-ReportedOnce :
    (c : IssueStatusUpdateClaim) (cs : List IssueStatusUpdateClaim) (status error : Text) (m : Tx ℕ)
    (env env' : Env) (db : Db)
    → is_issue_current_status status ≡ true
    → is_distinct (c ∷ cs) ≡ true
    → Outcome c.id
        (record { db = db; drawn = 0; chosen = 0 })
        (m env (record { db = db; drawn = 0; chosen = 0 }))
    → ReportedOnce (c ∷ cs) status error env' db (transact m env db)
unfolding transact
Outcome-ReportedOnce c cs status error m env env' db valid distinct_ids (inl e) =
    rw e (0, refl, inl (refl, refl))
Outcome-ReportedOnce c cs status error m env env' db valid distinct_ids (inr (n, t, e, h)) =
    rw e (n, refl, inr (idle-NoEffect c cs status error env' t.db valid distinct_ids h))

-- For a batch of claims with distinct ids, and a status that is one of `IssueCurrentStatus`:
-- completing the batch returns a count, and so does failing it. Either the count is 0 and the tables
-- are left as they are, or from then on both reports on the same batch, sent at any time with any
-- such status and any error, count 0 and leave the tables as they are.
pub status_update-once :
    (claim : IssueStatusUpdateClaim) (claims : List IssueStatusUpdateClaim)
    (status status' error error' : Text) (env env' : Env) (db : Db)
    → is_issue_current_status status ≡ true
    → is_issue_current_status status' ≡ true
    → is_distinct (claim ∷ claims) ≡ true
    → ReportedOnce
        (claim ∷ claims)
        status'
        error'
        env'
        db
        (transact (complete_issue_status_update (claim ∷ claims) status) env db)
      × ReportedOnce
          (claim ∷ claims)
          status'
          error'
          env'
          db
          (transact (fail_issue_status_update (claim ∷ claims) error) env db)
status_update-once c cs status status' error error' env env' db valid valid' distinct_ids =
    let start : Session = record { db = db; drawn = 0; chosen = 0 } in
    (
      Outcome-ReportedOnce c cs status' error' (complete_issue_status_update (c ∷ cs) status) env
          env' db valid' distinct_ids (complete-Outcome c cs status env start valid distinct_ids),
      Outcome-ReportedOnce c cs status' error' (fail_issue_status_update (c ∷ cs) error) env env' db
          valid' distinct_ids (fail-Outcome c cs error env start distinct_ids),
    )
