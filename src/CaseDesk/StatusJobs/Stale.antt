-- ===== src/CaseDesk/StatusJobs/Stale.antt =====
-- A worker of src/kefu/case_desk/service.py that lost the lease of one evaluation of its batch.
use message_router.Prelude.{
  ◌≡◌, refl, ap, Bool, true, false, Option, none, some, List, [], ◌∷◌, ◌==◌, nat_eq, Text, first,
  select, all, All, In, Bool-cases, inl, inr, arith, text_eq,
}
use message_router.Models.{
  Case, IssueStatusUpdateJob, IssueStatusUpdateState, issue_status_update_state_eq,
}
use message_router.Session.{Db, Env, ok}
use message_router.Session.Query.{gets, ensure}
use message_router.Session.Tx.{Session, transact, commit, ◌>>=◌}
use message_router.CaseDesk.Metadata.{is_issue_current_status}
use message_router.CaseDesk.StatusJobs.{
  IssueStatusUpdateClaim, holds, is_matched, is_whole_batch, is_distinct, jobs_of_case,
  processing_jobs, complete_batch, complete_for_case, complete_for_job, complete_claims,
  complete_issue_status_update, fail_batch, fail_issue_status_update,
}
use message_router.CaseDesk.StatusJobs.Once.{NoEffect}

-- No job is processed under the claim's token.
abbrev pub IsLost : Db → IssueStatusUpdateClaim → Type 0
IsLost db c = All (λ j. holds c j ≡ false) db.jobs

abbrev InProcess : IssueStatusUpdateJob → Type 0
InProcess j = j.state ≡ IssueStatusUpdateState.processing

lost-unmatched :
    (c : IssueStatusUpdateClaim) (js : List IssueStatusUpdateJob)
    → All (λ j. (holds c j ≡ false) × InProcess j) js
    → is_matched js c ≡ false
unfolding is_matched holds first
lost-unmatched c [] h = refl
lost-unmatched c (j ∷ js) ((n, p), h) = elim (Bool-cases (j.id == c.id)) [
  | inl t ↦ ground arith
  | inr f ↦ rw f (lost-unmatched c js h)
]

-- A selection of rows that tests the state.
All-processing :
    (c : IssueStatusUpdateClaim) (p : IssueStatusUpdateJob → Bool) (js : List IssueStatusUpdateJob)
    → ((j : IssueStatusUpdateJob) → p j ≡ true → InProcess j)
    → All (λ j. holds c j ≡ false) js
    → All (λ j. (holds c j ≡ false) × InProcess j) (select p js)
unfolding select
All-processing c p [] k h = tt
All-processing c p (j ∷ js) k h = elim (Bool-cases (p j)) [
  | inl t ↦ rw t ((h.0, k j t), All-processing c p js k h.1)
  | inr n ↦ rw n (All-processing c p js k h.1)
]

unmatched-all :
    (c : IssueStatusUpdateClaim) (js : List IssueStatusUpdateJob) (cs : List IssueStatusUpdateClaim)
    → is_matched js c ≡ false
    → In c cs
    → all (is_matched js) cs ≡ false
unfolding all
unmatched-all c js [] n i = absurd i
unmatched-all c js (x ∷ xs) n (inl e) = let m = rw e at n in ground arith
unmatched-all c js (x ∷ xs) n (inr i) = let m = unmatched-all c js xs n i in ground arith

lost-partial :
    (c : IssueStatusUpdateClaim) (cs : List IssueStatusUpdateClaim) (js : List IssueStatusUpdateJob)
    → All (λ j. (holds c j ≡ false) × InProcess j) js
    → In c cs
    → is_whole_batch cs js ≡ false
unfolding is_whole_batch
lost-partial c cs js h i = let n = unmatched-all c js cs (lost-unmatched c js h) i in ground arith

lost-for_case :
    (c : IssueStatusUpdateClaim) (cs : List IssueStatusUpdateClaim) (case : Option Case)
    (status : Text) (env : Env) (s : Session)
    → IsLost s.db c
    → In c cs
    → complete_for_case case cs status env s ≡ ok (0, s)
unfolding complete_for_case complete_batch jobs_of_case ◌>>=◌ gets
lost-for_case c cs none status env s h i = refl
lost-for_case c cs (some case) status env s h i =
    rw
      (lost-partial c cs (jobs_of_case case.id cs s.db)
        (All-processing c _ s.db.jobs (λ j t. ground arith) h) i)
      refl

lost-for_job :
    (c : IssueStatusUpdateClaim) (cs : List IssueStatusUpdateClaim)
    (job : Option IssueStatusUpdateJob) (status : Text) (env : Env) (s : Session)
    → IsLost s.db c
    → In c cs
    → complete_for_job job cs status env s ≡ ok (0, s)
unfolding complete_for_job ◌>>=◌ gets
lost-for_job c cs none status env s h i = refl
lost-for_job c cs (some job) status env s h i =
    lost-for_case c cs (first (λ x. x.id == job.case_id) s.db.cases) status env s h i

lost_completion :
    (c : IssueStatusUpdateClaim) (cs : List IssueStatusUpdateClaim) (status : Text) (env : Env)
    (s : Session)
    → is_issue_current_status status ≡ true
    → is_distinct cs ≡ true
    → IsLost s.db c
    → In c cs
    → complete_issue_status_update cs status env s ≡ ok (0, s)
unfolding complete_issue_status_update complete_claims ◌>>=◌ gets ensure
lost_completion c [] status env s valid distinct_ids h i = absurd i
lost_completion c (x ∷ xs) status env s valid distinct_ids h i =
    rw valid
      (rw distinct_ids (lost-for_job c (x ∷ xs) (first (holds x) s.db.jobs) status env s h i))

lost-fail :
    (c : IssueStatusUpdateClaim) (cs : List IssueStatusUpdateClaim) (error : Text) (env : Env)
    (s : Session)
    → is_distinct cs ≡ true
    → IsLost s.db c
    → In c cs
    → fail_issue_status_update cs error env s ≡ ok (0, s)
unfolding fail_issue_status_update fail_batch processing_jobs ◌>>=◌ gets ensure
lost-fail c [] error env s distinct_ids h i = absurd i
lost-fail c (x ∷ xs) error env s distinct_ids h i = rw distinct_ids (
    rw
      (lost-partial c (x ∷ xs) (processing_jobs (x ∷ xs) s.db)
        (All-processing c _ s.db.jobs (λ j t. ground arith) h) i)
      refl)

-- When one claim of a batch with distinct ids is lost, that is when no job is processed under its
-- token, the reports on the batch, with a status that is one of `IssueCurrentStatus` and any error,
-- count 0 and leave the tables as they are: the other jobs of the batch are not touched either.
pub status_update-lost :
    (claim : IssueStatusUpdateClaim) (claims : List IssueStatusUpdateClaim) (status error : Text)
    (env : Env) (db : Db)
    → is_issue_current_status status ≡ true
    → is_distinct claims ≡ true
    → IsLost db claim
    → In claim claims
    → NoEffect claims status error env db
unfolding transact
status_update-lost claim claims status error env db valid distinct_ids h i =
    let start : Session = record { db = db; drawn = 0; chosen = 0 } in
    (
      ap (λ r. commit r db) (lost_completion claim claims status env start valid distinct_ids h i),
      ap (λ r. commit r db) (lost-fail claim claims error env start distinct_ids h i),
    )
