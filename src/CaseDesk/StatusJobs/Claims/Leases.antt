-- ===== src/CaseDesk/StatusJobs/Claims/Leases.antt =====
-- The leases that a claim of status evaluations (src/kefu/case_desk/service.py) writes.
use message_router.Prelude.{
  suc, ◌≡◌, ◌≢◌, refl, some, List, [], ◌∷◌, ◌==◌, nat_eq, update, All, All-update, Bool-cases, ◌⊎◌,
  inl, inr, arith,
}
use message_router.Models.{
  Uuid, Moment, IssueStatusUpdateJob, IssueStatusUpdateState, issue_status_update_state_eq,
}
use message_router.Session.{Db, Env, ok}
use message_router.Session.Tx.{Session, ◌>>=◌}
use message_router.CaseDesk.StatusJobs.{IssueStatusUpdateClaim, put_job}
use message_router.CaseDesk.StatusJobs.Claims.{leased_job, claim_each}

-- The rows of a job are in process, leased until a moment.
abbrev pub LeasedUntil : Moment → Uuid → IssueStatusUpdateJob → Type 0
LeasedUntil until id j =
    (j.id ≢ id) ⊎ ((j.state ≡ IssueStatusUpdateState.processing) × (j.locked_until ≡ some until))

abbrev pub AllLeased : Moment → Db → Uuid → Type 0
AllLeased until db id = All (LeasedUntil until id) db.jobs

put_own-AllLeased :
    (until : Moment) (token : Uuid) (j : IssueStatusUpdateJob) (js : List IssueStatusUpdateJob)
    → All (LeasedUntil until j.id) (update (λ x. x.id == j.id) (λ _. leased_job token until j) js)
unfolding update
put_own-AllLeased until token j [] = tt
put_own-AllLeased until token j (x ∷ xs) = elim (Bool-cases (x.id == j.id)) [
  | inl t ↦ rw t (inr (refl, refl), put_own-AllLeased until token j xs)
  | inr n ↦ rw n (inl (λ e. ground arith), put_own-AllLeased until token j xs)
]

-- What a claim of some jobs does to the tables: what was leased until the same moment, or is none of
-- these jobs, stays leased; and what it returns is leased, and stems from these jobs.
pub record Claimed (until : Moment) (js : List IssueStatusUpdateJob) (db db' : Db)
    (cs : List IssueStatusUpdateClaim) : Type 1 where
  pub keeps : (id : Uuid) → AllLeased until db id → AllLeased until db' id
  pub spares :
      (u : Moment) (id : Uuid) → All (λ j. j.id ≢ id) js → AllLeased u db id → AllLeased u db' id
  pub leases : All (λ c. AllLeased until db' c.id) cs
  pub stems : (S : Uuid → Type 0) → All (λ j. S j.id) js → All (λ c. S c.id) cs

Claimed-cons :
    (until : Moment) (token : Uuid) (j : IssueStatusUpdateJob) (js : List IssueStatusUpdateJob)
    (db db' : Db) (cs : List IssueStatusUpdateClaim)
    → Claimed until js (put_job (leased_job token until j) db) db' cs
    → Claimed until
        (j ∷ js)
        db
        db'
        (record { id = j.id; lock_token = token; entry_sequence = j.entry_sequence } ∷ cs)
unfolding put_job
Claimed-cons until token j js db db' cs later = record {
  keeps = λ id h. later.keeps id (
      All-update (LeasedUntil until id) (λ x. x.id == j.id) (λ _. leased_job token until j) db.jobs
        (λ x _ _. inr (refl, refl)) h);
  spares = λ u id ne h. later.spares u id ne.1 (
      All-update (LeasedUntil u id) (λ x. x.id == j.id) (λ _. leased_job token until j) db.jobs
        (λ x _ _. inl ne.0) h);
  leases = (later.keeps j.id (put_own-AllLeased until token j db.jobs), later.leases);
  stems = λ S h. (h.0, later.stems S h.1);
}

pub claim_each-Claimed :
    (until : Moment) (js : List IssueStatusUpdateJob) (env : Env) (s : Session)
    → (cs : List IssueStatusUpdateClaim) × (t : Session) × (claim_each until js env s ≡ ok (cs, t))
      × Claimed until js s.db t.db cs
unfolding claim_each ◌>>=◌
claim_each-Claimed until [] env s = (
  [],
  s,
  refl,
  record { keeps = λ id h. h; spares = λ u id ne h. h; leases = tt; stems = λ S h. tt },
)
claim_each-Claimed until (j ∷ js) env s =
    let db = put_job (leased_job (env.uuid s.drawn) until j) s.db in
    let (cs, t, e, later) =
      claim_each-Claimed until js env
        (record { db = db; drawn = suc s.drawn; chosen = s.chosen }) in
    (_, t, rw e refl, Claimed-cons until (env.uuid s.drawn) j js s.db t.db cs later)
