-- ===== src/CaseDesk/StatusJobs/Claims/Exclusive.antt =====
-- Two claims of src/kefu/case_desk/service.py do not lease the same status evaluation at the same time.
use message_router.Prelude.{
  ℕ, ◌+◌, ◌≤◌, ◌≡◌, ◌≢◌, refl, ap, ◌∙◌, sym, subst, Bool, true, false, List, [], ◌∷◌, ◌++◌, ◌==◌,
  nat_eq, le→leb, any, take, All, All-append, All-weaken, Bool-cases, inl, inr, arith, ◌&&◌,
}
use mathlib.Core.List.{append_assoc}
use message_router.Models.{
  Uuid, Moment, Case, IssueStatusUpdateJob, IssueStatusUpdateState, issue_status_update_state_eq,
}
use message_router.Session.{Db, Env, ok}
use message_router.Session.Query.{gets, ensure}
use message_router.Session.Tx.{Session, ◌>>=◌}
use message_router.CaseDesk.Leasing.Rows.{All-sort_by, All-selected}
use message_router.CaseDesk.StatusJobs.{IssueStatusUpdateClaim}
use message_router.CaseDesk.StatusJobs.Claims.{
  IssueStatusUpdateWork, active_jobs, is_held, is_earlier_job, has_active_lease, claim_issue,
  claim_issues, claimable_rows, unclaimed_cases, work_of, claim_pending_issue_status_updates,
}
use message_router.CaseDesk.StatusJobs.Claims.Leases.{
  LeasedUntil, AllLeased, Claimed, claim_each-Claimed,
}

-- The claims that a list of work holds.
abbrev pub claims_of : List IssueStatusUpdateWork → List IssueStatusUpdateClaim
claims_of [] = []
claims_of (w ∷ ws) = w.claims ++ claims_of ws

claims_of-append :
    (ws vs : List IssueStatusUpdateWork) → claims_of (ws ++ vs) ≡ claims_of ws ++ claims_of vs
claims_of-append [] vs = refl
claims_of-append (w ∷ ws) vs =
    ap (λ cs. w.claims ++ cs) (claims_of-append ws vs)
    ∙ sym (append_assoc w.claims (claims_of ws) (claims_of vs))

All-claims_of :
    (P : IssueStatusUpdateClaim → Type 0) (ws vs : List IssueStatusUpdateWork)
    → All P (claims_of ws)
    → All P (claims_of vs)
    → All P (claims_of (ws ++ vs))
All-claims_of P ws vs h k =
    subst (All P) (sym (claims_of-append ws vs)) (All-append P (claims_of ws) (claims_of vs) h k)

All-work_of :
    (P : IssueStatusUpdateClaim → Type 0) (case : Case) (cs : List IssueStatusUpdateClaim)
    → All P cs
    → All P (claims_of (work_of case cs))
All-work_of P case [] h = tt
All-work_of P case (c ∷ cs) h = All-append P (c ∷ cs) [] h tt

-- A claim of some issues, seen from one that comes later and from one that came earlier.
record Issues (now until : Moment) (db db' : Db) (ws : List IssueStatusUpdateWork) : Type 1 where
  keeps : (id : Uuid) → AllLeased until db id → AllLeased until db' id
  leases : All (λ c. AllLeased until db' c.id) (claims_of ws)
  avoids :
      (u : Moment) (id : Uuid)
      → now ≤ u
      → AllLeased u db id
      → All (λ c. c.id ≢ id) (claims_of ws) × AllLeased u db' id

All-not_any :
    (p : IssueStatusUpdateJob → Bool) (js : List IssueStatusUpdateJob)
    → any p js ≡ false
    → All (λ j. p j ≡ false) js
unfolding any
All-not_any p [] h = tt
All-not_any p (j ∷ js) h = (ground arith, All-not_any p js (ground arith))

-- No job of an issue that nobody holds is leased past that moment.
unheld-other :
    (now u : Moment) (id case_id : Uuid) (js : List IssueStatusUpdateJob)
    → now ≤ u
    → All
        (λ j.
          (((j.case_id == case_id) && (j.state == IssueStatusUpdateState.processing))
            && is_held now j.locked_until)
          ≡ false)
        js
    → All (LeasedUntil u id) js
    → All (λ j. (j.case_id ≡ case_id) → j.id ≢ id) js
unheld-other now u id case_id [] le n h = tt
unheld-other now u id case_id (j ∷ js) le (n, ns) (l, ls) =
    (other l, unheld-other now u id case_id js le ns ls)
  where
    other : LeasedUntil u id j → (j.case_id ≡ case_id) → j.id ≢ id
    other (inl ne) e = ne
    other (inr (p, q)) e =
        let held : is_held now j.locked_until ≡ true = rw q (le→leb now u le) in
        absurd (ground arith)

active-other :
    (now u : Moment) (id : Uuid) (case : Case) (db : Db)
    → now ≤ u
    → has_active_lease now case.id db ≡ false
    → AllLeased u db id
    → All (λ j. j.id ≢ id) (active_jobs case db)
unfolding active_jobs has_active_lease
active-other now u id case db le n h =
    let other = unheld-other now u id case.id db.jobs le (All-not_any _ db.jobs n) h in
    All-sort_by (λ j. j.id ≢ id) is_earlier_job _
      (All-weaken _ (λ j. j.id ≢ id) _ (λ j w. w.0 (ground arith))
        (All-selected (λ j. (j.case_id ≡ case.id) → j.id ≢ id) _ db.jobs other))

issue-Issues :
    (now until : Moment) (case : Case) (db db' : Db) (cs : List IssueStatusUpdateClaim)
    → has_active_lease now case.id db ≡ false
    → Claimed until (active_jobs case db) db db' cs
    → Issues now until db db' (work_of case cs)
issue-Issues now until case db db' cs n claimed = record {
  keeps = claimed.keeps;
  leases = All-work_of (λ c. AllLeased until db' c.id) case cs claimed.leases;
  avoids = λ u id le h.
      let other = active-other now u id case db le n h in
      (
        All-work_of (λ c. c.id ≢ id) case cs (claimed.stems (λ i. i ≢ id) other),
        claimed.spares u id other h,
      );
}

claim_issue-Issues :
    (until : Moment) (case : Case) (env : Env) (s : Session)
    → (ws : List IssueStatusUpdateWork) × (t : Session) × (claim_issue
          (has_active_lease env.now case.id s.db)
          until
          case
          env
          s
        ≡ ok (ws, t))
      × Issues env.now until s.db t.db ws
unfolding claim_issue ◌>>=◌ gets
claim_issue-Issues until case env s = elim (Bool-cases (has_active_lease env.now case.id s.db)) [
  | inl b ↦
      ([], s, rw b refl, record { keeps = λ id h. h; leases = tt; avoids = λ u id le h. (tt, h) })
  | inr n ↦
      let js = active_jobs case s.db in
      let (cs, t, e, c) = claim_each-Claimed until js env s in
      (work_of case cs, t, rw (n, e) refl, issue-Issues env.now until case s.db t.db cs n c)
]

Issues-append :
    (now until : Moment) (db₀ db₁ db₂ : Db) (ws vs : List IssueStatusUpdateWork)
    → Issues now until db₀ db₁ ws
    → Issues now until db₁ db₂ vs
    → Issues now until db₀ db₂ (ws ++ vs)
Issues-append now until db₀ db₁ db₂ ws vs first_part later = record {
  keeps = λ id h. later.keeps id (first_part.keeps id h);
  leases =
      All-claims_of (λ c. AllLeased until db₂ c.id) ws vs
        (All-weaken (λ c. AllLeased until db₁ c.id) (λ c. AllLeased until db₂ c.id) (claims_of ws)
          (λ c h. later.keeps c.id h) first_part.leases)
        later.leases;
  avoids = λ u id le h.
      let (a, k) = first_part.avoids u id le h in
      let (b, l) = later.avoids u id le k in (All-claims_of (λ c. c.id ≢ id) ws vs a b, l);
}

claim_issues-Issues :
    (until : Moment) (cases : List Case) (env : Env) (s : Session)
    → (ws : List IssueStatusUpdateWork) × (t : Session) × (claim_issues until cases env s
        ≡ ok (ws, t))
      × Issues env.now until s.db t.db ws
unfolding claim_issues ◌>>=◌ gets
claim_issues-Issues until [] env s =
    ([], s, refl, record { keeps = λ id h. h; leases = tt; avoids = λ u id le h. (tt, h) })
claim_issues-Issues until (case ∷ cases) env s =
    let (ws, t, e, a) = claim_issue-Issues until case env s in
    let (vs, t', e', b) = claim_issues-Issues until cases env t in
    (ws ++ vs, t', rw (e, e') refl, Issues-append env.now until s.db t.db t'.db ws vs a b)

claim-Issues :
    (limit : ℕ) (lease : Moment) (env : Env) (s : Session)
    → 1 ≤ limit
    → (ws : List IssueStatusUpdateWork) × (t : Session) × (claim_pending_issue_status_updates limit
          lease env s
        ≡ ok (ws, t))
      × Issues env.now (env.now + lease) s.db t.db ws
unfolding claim_pending_issue_status_updates ◌>>=◌ gets ensure
claim-Issues limit lease env s le =
    let (ws, t, e, h) =
      claim_issues-Issues (env.now + lease)
        (unclaimed_cases [] (take limit (claimable_rows env.now s.db))) env s in
    (ws, t, rw (le→leb 1 limit le) e, h)

-- A claim of the status evaluations with a limit from 1 returns, whatever the tables, and so does a
-- later one. When the later one comes before the leases of the first have run out, no evaluation is
-- in the work of both.
pub claim_pending_issue_status_updates-exclusive :
    (limit limit' : ℕ) (lease lease' : Moment) (env env' : Env) (s : Session)
    → 1 ≤ limit
    → 1 ≤ limit'
    → env'.now ≤ env.now + lease
    → (ws : List IssueStatusUpdateWork) × (t : Session) × (claim_pending_issue_status_updates limit
          lease env s
        ≡ ok (ws, t))
      × (ws' : List IssueStatusUpdateWork) × (t' : Session) × (claim_pending_issue_status_updates
            limit' lease' env' t
          ≡ ok (ws', t'))
      × All (λ c. All (λ c'. c'.id ≢ c.id) (claims_of ws')) (claims_of ws)
claim_pending_issue_status_updates-exclusive limit limit' lease lease' env env' s le le' in_time =
    let (ws, t, e, a) = claim-Issues limit lease env s le in
    let (ws', t', e', b) = claim-Issues limit' lease' env' t le' in
    (
      ws,
      t,
      e,
      ws',
      t',
      e',
      All-weaken (λ c. AllLeased (env.now + lease) t.db c.id)
          (λ c. All (λ c'. c'.id ≢ c.id) (claims_of ws')) (claims_of ws)
          (λ c h. (b.avoids (env.now + lease) c.id in_time h).0) a.leases,
    )
