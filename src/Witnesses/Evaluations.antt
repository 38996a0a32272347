-- ===== src/Witnesses/Evaluations.antt =====
-- The theorems on status evaluations, at a queued one and at one that a worker holds.
use message_router.Prelude.{
  ◌≡◌, ◌≢◌, refl, true, List, [], ◌∷◌, All, inl, any, list_beq, first, select, update, all, codes,
  arith,
}
use message_router.Session.{Env, ok}
use message_router.Session.Query
use message_router.Session.Query.{ensure}
use message_router.Session.Tx.{Session, transact, ◌>>=◌}
use message_router.CaseDesk.Common.{save_case, put_case}
use message_router.CaseDesk.Timeline.{append_entry, add_entry, actor_name_snapshot}
use message_router.CaseDesk.Metadata.{is_issue_current_status}
use message_router.CaseDesk.Leasing.{sort_by, insert_by}
use message_router.CaseDesk.StatusJobs.{
  IssueStatusUpdateClaim, is_distinct, holds, put_job, put_jobs, is_matched, is_whole_batch,
  jobs_of_case, set_agent_status, complete_batch, complete_for_case, complete_for_job,
  complete_claims, complete_issue_status_update, fail_issue_status_update,
}
use message_router.CaseDesk.StatusJobs.Once.{NoEffect, ReportedOnce, status_update-once}
use message_router.CaseDesk.StatusJobs.Stale.{IsLost, status_update-lost}
use message_router.CaseDesk.StatusJobs.Claims.{
  IssueStatusUpdateWork, is_active, has_earlier_job, is_claimable, joined_jobs, claimable_rows,
  has_active_lease, active_jobs, claim_each, claim_issue, unclaimed_cases, claim_issues,
  claim_pending_issue_status_updates,
}
use message_router.CaseDesk.StatusJobs.Claims.Exclusive.{
  claims_of, claim_pending_issue_status_updates-exclusive,
}
use message_router.Samples.{env, evaluating, queued}

abbrev later : Env
later = record env { now = 1_000_000_500 }

abbrev claim : IssueStatusUpdateClaim
claim = record { id = 500; lock_token = 88; entry_sequence = 1 }

-- The claim of a worker whose lease was taken over.
abbrev old_claim : IssueStatusUpdateClaim
old_claim = record { id = 500; lock_token = 87; entry_sequence = 1 }

solved : is_issue_current_status (codes "已解决") ≡ true
unfolding is_issue_current_status any list_beq
solved = refl

distinct_ids : is_distinct (claim ∷ []) ≡ true
unfolding any
distinct_ids = refl

other_token : IsLost evaluating old_claim
unfolding holds
other_token = (refl, tt)

status_update-once_example :
    ReportedOnce
      (claim ∷ [])
      (codes "已解决")
      (codes "timeout")
      later
      evaluating
      (transact (complete_issue_status_update (claim ∷ []) (codes "已解决")) env evaluating)
    × ReportedOnce
        (claim ∷ [])
        (codes "已解决")
        (codes "timeout")
        later
        evaluating
        (transact (fail_issue_status_update (claim ∷ []) (codes "timeout")) env evaluating)
status_update-once_example =
    status_update-once claim [] (codes "已解决") (codes "已解决") (codes "timeout") (codes "timeout") env
      later evaluating solved solved distinct_ids

status_update-lost_example :
    NoEffect (old_claim ∷ []) (codes "已解决") (codes "timeout") env evaluating
status_update-lost_example =
    status_update-lost old_claim (old_claim ∷ []) (codes "已解决") (codes "timeout") env evaluating
      solved distinct_ids other_token (inl refl)

completed_once :
    (transact (complete_issue_status_update (claim ∷ []) (codes "已解决")) env evaluating).0 ≡ ok 1
unfolding complete_issue_status_update is_issue_current_status complete_claims complete_for_job
    complete_for_case complete_batch jobs_of_case is_whole_batch is_matched set_agent_status
    put_jobs put_job holds append_entry actor_name_snapshot add_entry save_case put_case any all
    first select update list_beq ensure transact ◌>>=◌ Query.◌>>=◌
completed_once = refl

claim_pending_issue_status_updates-exclusive_example :
    (ws : List IssueStatusUpdateWork) × (t : Session) × (claim_pending_issue_status_updates 10
        90_000_000 env
        (record { db = queued; drawn = 0; chosen = 0 })
      ≡ ok (ws, t))
    × (ws' : List IssueStatusUpdateWork) × (t' : Session) × (claim_pending_issue_status_updates 10
          90_000_000 later t
        ≡ ok (ws', t'))
    × All
        (λ (c : IssueStatusUpdateClaim).
          All (λ (c' : IssueStatusUpdateClaim). c'.id ≢ c.id) (claims_of ws'))
        (claims_of ws)
claim_pending_issue_status_updates-exclusive_example =
    claim_pending_issue_status_updates-exclusive 10 10 90_000_000 90_000_000 env later
      (record { db = queued; drawn = 0; chosen = 0 }) (omega arith) (omega arith) (omega arith)

claimed_once :
    (ws : List IssueStatusUpdateWork) × (t : Session) × (claim_pending_issue_status_updates 10
        90_000_000 env
        (record { db = queued; drawn = 0; chosen = 0 })
      ≡ ok (ws, t))
    × (claims_of ws ≡ record { id = 500; lock_token = 900; entry_sequence = 1 } ∷ [])
unfolding claim_pending_issue_status_updates claimable_rows joined_jobs is_claimable has_earlier_job
    is_active sort_by insert_by unclaimed_cases claim_issues has_active_lease claim_issue
    active_jobs claim_each put_job update any first select ensure ◌>>=◌ Query.◌>>=◌
claimed_once = (_, _, refl, refl)
