-- ===== src/CaseDesk/Invariants/Evaluations.antt =====
-- The claims of status evaluations and the reports on them keep a stable invariant.
use message_router.Prelude.{
  ◌+◌, ℕ, ◌≡◌, refl, subst, Bool, true, false, Option, none, some, List, [], ◌∷◌, nat_eq, Text,
  first, All, All-first,
}
use message_router.Models.{Moment, Case, lifecycle_status_eq, WaitingOn, IssueStatusUpdateJob}
use message_router.Session.{Db, Env, ok-injective}
use message_router.Session.Query.{gets}
use message_router.Session.Tx.Rules.{
  Yields, Any, Yields-done, Yields-bind, Yields-read_then, Yields-query, Yields-modify,
  Yields-uuid4,
}
use message_router.CaseDesk.StatusJobs.{
  IssueStatusUpdateClaim, put_jobs, set_agent_status, complete_batch, complete_for_case,
  complete_for_job, complete_claims, complete_issue_status_update, fail_batch,
  fail_issue_status_update,
}
use message_router.CaseDesk.StatusJobs.Claims.{
  claim_each, claim_issue, claim_issues, claim_pending_issue_status_updates,
}
use message_router.CaseDesk.Invariants.Stable.{Stable, SameState}
use message_router.CaseDesk.Invariants.Steps.{append_entry-keeps}

module _ {J : Db → Type 0} {C : Case → Type 0} {D : Option WaitingOn → Type 0} (env : Env)
    (st : Stable J C D) where
  put_jobs-keeps :
      (f : IssueStatusUpdateJob → IssueStatusUpdateJob) (js : List IssueStatusUpdateJob) (db : Db)
      → J db
      → J (put_jobs f js db)
  unfolding put_jobs
  put_jobs-keeps f [] db j = j
  put_jobs-keeps f (x ∷ xs) db j = put_jobs-keeps f xs _ (st.put_job (f x) db j)

  set_agent_status-keeps :
      (same : Bool) (c : Case) (status : Text) (n : ℕ)
      → C c
      → Yields env J Any (set_agent_status same c status n)
  unfolding set_agent_status
  set_agent_status-keeps true c status n h = Yields-done _
  set_agent_status-keeps false c status n h =
      let changed = record c { issue_current_status = status; version = c.version + 1 } in
      let eq : SameState c changed = record {
        id = refl;
        lifecycle = refl;
        status = refl;
        waiting = refl;
      } in
      Yields-bind _ _ (append_entry-keeps env st changed _ (st.same c changed eq h))
        λ _ _. Yields-done _

  complete_batch-keeps :
      (whole : Bool) (js : List IssueStatusUpdateJob) (c : Case) (status : Text)
      → C c
      → Yields env J Any (complete_batch whole js c status)
  unfolding complete_batch
  complete_batch-keeps false js c status h = Yields-done _
  complete_batch-keeps true js c status h = Yields-read_then _ _ λ now.
      Yields-bind _ _ (Yields-modify _ (λ db j. put_jobs-keeps _ js db j))
        λ _ _. set_agent_status-keeps _ c status _ h

  abbrev OfSome : Option Case → Type 0
  OfSome none = Unit
  OfSome (some c) = C c

  found-OfSome : (p : Case → Bool) (cs : List Case) → All C cs → OfSome (first p cs)
  found-OfSome p cs h = found (first p cs) refl
    where
      found : (o : Option Case) → first p cs ≡ o → OfSome o
      found none e = tt
      found (some c) e = All-first C p cs h e

  complete_for_case-keeps :
      (case : Option Case) (claims : List IssueStatusUpdateClaim) (status : Text)
      → OfSome case
      → Yields env J Any (complete_for_case case claims status)
  unfolding complete_for_case
  complete_for_case-keeps none claims status h = Yields-done _
  complete_for_case-keeps (some c) claims status h =
      Yields-read_then _ _ λ js. complete_batch-keeps _ js c status h

  complete_for_job-keeps :
      (job : Option IssueStatusUpdateJob) (claims : List IssueStatusUpdateClaim) (status : Text)
      → Yields env J Any (complete_for_job job claims status)
  unfolding complete_for_job gets
  complete_for_job-keeps none claims status = Yields-done _
  complete_for_job-keeps (some job) claims status =
      Yields-bind _ _
        (Yields-query OfSome _ λ db found j e.
          subst OfSome (ok-injective e) (found-OfSome _ db.cases (st.all_cases db j)))
        λ case h. complete_for_case-keeps case claims status h

  pub complete_issue_status_update-keeps :
      (claims : List IssueStatusUpdateClaim) (status : Text)
      → Yields env J Any (complete_issue_status_update claims status)
  unfolding complete_issue_status_update complete_claims
  complete_issue_status_update-keeps [] status = Yields-read_then _ _ λ _. Yields-done _
  complete_issue_status_update-keeps (c ∷ cs) status = Yields-read_then _ _ λ _.
      Yields-read_then _ _
        λ _. Yields-read_then _ _ λ job. complete_for_job-keeps job (c ∷ cs) status

  fail_batch-keeps :
      (whole : Bool) (js : List IssueStatusUpdateJob) (error : Text)
      → Yields env J Any (fail_batch whole js error)
  unfolding fail_batch
  fail_batch-keeps false js error = Yields-done _
  fail_batch-keeps true js error = Yields-read_then _ _ λ now.
      Yields-bind _ _ (Yields-modify _ (λ db j. put_jobs-keeps _ js db j)) λ _ _. Yields-done _

  pub fail_issue_status_update-keeps :
      (claims : List IssueStatusUpdateClaim) (error : Text)
      → Yields env J Any (fail_issue_status_update claims error)
  unfolding fail_issue_status_update
  fail_issue_status_update-keeps [] error = Yields-done _
  fail_issue_status_update-keeps (c ∷ cs) error =
      Yields-read_then _ _ λ _. Yields-read_then _ _ λ js. fail_batch-keeps _ js error

  claim_each-keeps :
      (until : Moment) (js : List IssueStatusUpdateJob) → Yields env J Any (claim_each until js)
  unfolding claim_each
  claim_each-keeps until [] = Yields-done _
  claim_each-keeps until (x ∷ xs) = Yields-bind _ _ Yields-uuid4 λ token _.
      Yields-bind _ _ (Yields-modify _ (λ db j. st.put_job _ db j))
        λ _ _. Yields-bind _ _ (claim_each-keeps until xs) λ rest _. Yields-done _

  claim_issue-keeps :
      (held : Bool) (until : Moment) (c : Case) → Yields env J Any (claim_issue held until c)
  unfolding claim_issue
  claim_issue-keeps true until c = Yields-done _
  claim_issue-keeps false until c =
      Yields-read_then _ _
        λ js. Yields-bind _ _ (claim_each-keeps until js) λ claims _. Yields-done _

  claim_issues-keeps :
      (until : Moment) (cases : List Case) → Yields env J Any (claim_issues until cases)
  unfolding claim_issues
  claim_issues-keeps until [] = Yields-done _
  claim_issues-keeps until (c ∷ cs) = Yields-read_then _ _ λ held.
      Yields-bind _ _ (claim_issue-keeps held until c)
        λ work _. Yields-bind _ _ (claim_issues-keeps until cs) λ rest _. Yields-done _

  pub claim_pending_issue_status_updates-keeps :
      (limit : ℕ) (lease : Moment)
      → Yields env J Any (claim_pending_issue_status_updates limit lease)
  unfolding claim_pending_issue_status_updates
  claim_pending_issue_status_updates-keeps limit lease =
      Yields-read_then _ _
        λ _. Yields-read_then _ _ λ now. Yields-read_then _ _ λ rows. claim_issues-keeps _ _
