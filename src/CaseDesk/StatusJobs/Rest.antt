-- ===== src/CaseDesk/StatusJobs/Rest.antt =====
-- Status evaluations that src/kefu/case_desk/service.py does not process, or no longer.
use message_router.Prelude.{
  ◌≡◌, ◌≢◌, refl, subst, ◌∙◌, true, false, none, List, [], ◌∷◌, ◌==◌, nat_eq, text_eq, ◌&&◌, first,
  select, update, all, All, All-update, Bool-cases, ◌⊎◌, inl, inr, arith,
}
use message_router.Models.{
  Uuid, IssueStatusUpdateJob, IssueStatusUpdateState, issue_status_update_state_eq,
}
use message_router.Session.{Db}
use message_router.CaseDesk.StatusJobs.{
  IssueStatusUpdateClaim, put_job, put_jobs, holds, has_token, is_matched, is_whole_batch,
  is_claimed,
}

-- No row with this id is in process.
abbrev pub Rests : Uuid → IssueStatusUpdateJob → Type 0
Rests id j = (j.id ≢ id) ⊎ (j.state ≢ IssueStatusUpdateState.processing)

abbrev pub AtRest : Uuid → Db → Type 0
AtRest id db = All (Rests id) db.jobs

put_job-AtRest :
    (id : Uuid) (j : IssueStatusUpdateJob) (db : Db)
    → j.state ≢ IssueStatusUpdateState.processing
    → AtRest id db
    → AtRest id (put_job j db)
unfolding put_job
put_job-AtRest id j db n h =
    All-update (Rests id) (λ x. x.id == j.id) (λ _. j) db.jobs (λ x _ _. inr n) h

put_own-AtRest :
    (j : IssueStatusUpdateJob) (js : List IssueStatusUpdateJob)
    → j.state ≢ IssueStatusUpdateState.processing
    → All (Rests j.id) (update (λ x. x.id == j.id) (λ _. j) js)
unfolding update
put_own-AtRest j [] n = tt
put_own-AtRest j (x ∷ xs) n = elim (Bool-cases (x.id == j.id)) [
  | inl t ↦ rw t (inr n, put_own-AtRest j xs n)
  | inr f ↦ rw f (inl (λ e. ground arith), put_own-AtRest j xs n)
]

module _ (f : IssueStatusUpdateJob → IssueStatusUpdateJob)
    (stops : (j : IssueStatusUpdateJob) → (f j).state ≢ IssueStatusUpdateState.processing)
    (keeps : (j : IssueStatusUpdateJob) → (f j).id ≡ j.id) where
  put_jobs-keep :
      (id : Uuid) (js : List IssueStatusUpdateJob) (db : Db)
      → AtRest id db
      → AtRest id (put_jobs f js db)
  unfolding put_jobs
  put_jobs-keep id [] db h = h
  put_jobs-keep id (j ∷ js) db h =
      put_jobs-keep id js (put_job (f j) db) (put_job-AtRest id (f j) db (stops j) h)

  -- Once its job is written, a claim's id is at rest.
  pub put_jobs-AtRest :
      (id token : Uuid) (js : List IssueStatusUpdateJob) (db : Db)
      → has_token token (first (λ j. j.id == id) js) ≡ true
      → AtRest id (put_jobs f js db)
  unfolding put_jobs first put_job
  put_jobs-AtRest id token [] db h = absurd (cc)
  put_jobs-AtRest id token (j ∷ js) db h = elim (Bool-cases (j.id == id)) [
    | inl t ↦
        let e : (f j).id ≡ id = keeps j ∙ ground arith in
        put_jobs-keep id js (put_job (f j) db) (
          subst (λ i. All (Rests i) (put_job (f j) db).jobs) e
            (put_own-AtRest (f j) db.jobs (stops j)))
    | inr n ↦ put_jobs-AtRest id token js (put_job (f j) db) (rw n at h)
  ]

-- The first claim of a whole batch is matched.
pub whole-matched :
    (c : IssueStatusUpdateClaim) (cs : List IssueStatusUpdateClaim) (js : List IssueStatusUpdateJob)
    → is_whole_batch (c ∷ cs) js ≡ true
    → has_token c.lock_token (first (λ j. j.id == c.id) js) ≡ true
unfolding is_whole_batch is_matched all
whole-matched c cs js h = ground arith

-- Nothing is selected for a claim whose id is at rest.
pub rest-holds :
    (c : IssueStatusUpdateClaim) (js : List IssueStatusUpdateJob)
    → All (Rests c.id) js
    → first (holds c) js ≡ none
unfolding first holds
rest-holds c [] h = refl
rest-holds c (j ∷ js) (r, h) = let n : holds c j ≡ false = ground arith in rw n (rest-holds c js h)

pub rest-unmatched :
    (c : IssueStatusUpdateClaim) (cs : List IssueStatusUpdateClaim) (js : List IssueStatusUpdateJob)
    → All (Rests c.id) js
    → first
        (λ j. j.id == c.id)
        (select (λ j. is_claimed cs j && (j.state == IssueStatusUpdateState.processing)) js)
      ≡ none
unfolding first select
rest-unmatched c cs [] h = refl
rest-unmatched c cs (j ∷ js) (r, h) =
    elim (Bool-cases (is_claimed cs j && (j.state == IssueStatusUpdateState.processing))) [
      | inl t ↦
          let n : (j.id == c.id) ≡ false = ground arith in rw t (rw n (rest-unmatched c cs js h))
      | inr f ↦ rw f (rest-unmatched c cs js h)
    ]
