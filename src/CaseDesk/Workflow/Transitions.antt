-- ===== src/CaseDesk/Workflow/Transitions.antt =====
-- The state machine of an issue's status in src/kefu/case_desk/service.py.
use message_router.Prelude.{
  none, [], ◌+◌, ℕ, ◌≡◌, ◌≢◌, ◌⊎◌, refl, ap, sym, subst, Bool, true, false, not, ◌||◌, some, ◌==◌,
  nat_eq, Text, Bool-cases, inl, inr, arith,
}
use message_router.Models.{
  User, CaseEntryKind, status_change, Uuid, Case, CaseStatus, case_status_eq, LifecycleStatus,
  lifecycle_status_eq,
}
use message_router.Session.{Db, Env, ok, ok-injective}
use message_router.Session.Query
use message_router.Session.Query.{ensure, when, ensure-eq-ok}
use message_router.Session.Tx.{Session, pure, query_then-eq-ok}
use message_router.Directory.Lookup.{is_member, get_user}
use message_router.Directory.Access.{assert_consult_manager, assert_case_visible}
use message_router.CaseDesk.Commands.{CommandResult}
use message_router.CaseDesk.Common.{load_case, assert_expected_version, assert_open, result}
use message_router.CaseDesk.Recorded.{Recorded, append_entry-Recorded}
use message_router.CaseDesk.Workflow.{may_move, wants_developer, change_status, set_case_status}

-- The moves that the state machine has: an open issue is taken up from each other state, and an issue
-- in progress may wait for the customer or be suspended.
abbrev pub Moves : CaseStatus → CaseStatus → Type 0
Moves from to =
    ((to ≡ CaseStatus.in_progress)
      × ((from ≡ CaseStatus.pending_confirmation)
          ⊎ ((from ≡ CaseStatus.waiting_customer) ⊎ (from ≡ CaseStatus.suspended))))
    ⊎ ((from ≡ CaseStatus.in_progress)
        × ((to ≡ CaseStatus.waiting_customer) ⊎ (to ≡ CaseStatus.suspended)))

may_move-Moves : (from to : CaseStatus) → may_move from to ≡ true → Moves from to
unfolding may_move
may_move-Moves CaseStatus.pending_confirmation to h = ground arith
may_move-Moves CaseStatus.in_progress to h = ground arith
may_move-Moves CaseStatus.waiting_customer to h = ground arith
may_move-Moves CaseStatus.suspended to h = ground arith
may_move-Moves CaseStatus.closed to h = ground arith

-- Whoever takes on an issue that is not confirmed yet was found to be a member.
developer_moved :
    (from to : CaseStatus) (member : Bool)
    → may_move from to ≡ true
    → (not (wants_developer from to) || member) ≡ true
    → from ≡ CaseStatus.pending_confirmation
    → member ≡ true
unfolding may_move wants_developer
developer_moved CaseStatus.pending_confirmation to member m w p = ground arith
developer_moved CaseStatus.in_progress to member m w p = ground arith
developer_moved CaseStatus.waiting_customer to member m w p = ground arith
developer_moved CaseStatus.suspended to member m w p = ground arith
developer_moved CaseStatus.closed to member m w p = ground arith

-- A conclusion that holds for one status, as a choice.
unless {ℓ} : {P : Type ℓ} (a b : CaseStatus) → (a ≡ b → P) → (a ≢ b) ⊎ P
unless a b f = elim (Bool-cases (a == b)) [
  | inl t ↦ inr (f ((case_status_eq.equal_iff a b).0 t))
  | inr n ↦ inl (λ e. let t = (case_status_eq.equal_iff a b).1 e in cc)
]

-- An issue that has the status keeps it, and one that moves does so by the state machine, and gets
-- the status.
abbrev pub Outcome : Case → CaseStatus → Uuid → Env → Session → Session → CommandResult → Type 0
Outcome case status actor_id env s s' r =
    ((case.status ≡ status) × (r ≡ result case none [] true) × (s' ≡ s))
    ⊎ ((user : User) × (get_user actor_id env s.db ≡ ok user)
        × Moves case.status status
        × Recorded
            (record case {
              status = status;
              version = case.version + 1;
              last_entry_sequence = case.last_entry_sequence + 1;
            })
            CaseEntryKind.status_changed user (status_change case.status status) s.db s'.db r
        × ((case.status ≢ CaseStatus.pending_confirmation)
            ⊎ (is_member actor_id case.current_dev_team_id env s.db ≡ ok true)))

change_status-Outcome :
    (case : Case) (status : CaseStatus) (actor_id : Uuid) (env : Env) (s s' : Session)
    (r : CommandResult) (same : Bool)
    → (case.status == status) ≡ same
    → change_status same case status actor_id env s ≡ ok (r, s')
    → Outcome case status actor_id env s s' r
unfolding change_status pure
change_status-Outcome case status actor_id env s s' r true e h =
    let q = ok-injective h in
    inl (
      (case_status_eq.equal_iff case.status status).0 e,
      ap (λ p. p.0) (sym q),
      ap (λ p. p.1) (sym q),
    )
change_status-Outcome case status actor_id env s s' r false e h =
    let (_, ensured, h₁) = query_then-eq-ok _ _ env s h in
    let (member, read, h₂) = query_then-eq-ok _ _ env s h₁ in
    let (_, allowed, h₃) = query_then-eq-ok _ _ env s h₂ in
    let (actor_user, known, h₄) = query_then-eq-ok _ _ env s h₃ in
    let moves = ensure-eq-ok _ _ env s.db ensured in
    let passed = ensure-eq-ok _ _ env s.db allowed in
    inr (
      actor_user,
      known,
      may_move-Moves case.status status moves,
      append_entry-Recorded (record case { status = status; version = case.version + 1 })
          CaseEntryKind.status_changed actor_user (status_change case.status status) env s s' r h₄,
      unless case.status CaseStatus.pending_confirmation λ pending.
          subst (λ m. is_member actor_id case.current_dev_team_id env s.db ≡ ok m)
            (developer_moved case.status status member moves passed pending) read,
    )

pub expected_version-eq :
    (case : Case) (v : ℕ) (env : Env) (db : Db) {u : Unit {0}}
    → assert_expected_version case (some v) env db ≡ ok u
    → case.version ≡ v
unfolding assert_expected_version
expected_version-eq case v env db h =
    let (_, _, k) = Query.>>=-eq-ok _ _ env db h in
    (nat_eq.equal_iff case.version v).0 (ensure-eq-ok _ _ env db k)

asked_by_consult :
    (case : Case) (status : CaseStatus) (actor_id : Uuid) (env : Env) (db : Db) {u : Unit {0}}
    → when (status == CaseStatus.waiting_customer) (assert_consult_manager actor_id case) env db
      ≡ ok u
    → status ≡ CaseStatus.waiting_customer
    → assert_consult_manager actor_id case env db ≡ ok tt
asked_by_consult case status actor_id env db h e =
    subst
      (λ x.
        when (x == CaseStatus.waiting_customer) (assert_consult_manager actor_id case) env db
        ≡ ok tt)
      e h

not-equal : (a b : CaseStatus) → not (a == b) ≡ true → a ≢ b
not-equal a b h e = let t = (case_status_eq.equal_iff a b).1 e in cc

-- A user's change of an issue's status that succeeds had the version that the user saw, was made by
-- a user who may see the issue, on an open issue, and asked for another status than `closed` and
-- `pending_confirmation`. Either the issue has that status, and then the result is idempotent and
-- nothing is written; or the move is one of the state machine, from each other open state to
-- `in_progress` and from there to `waiting_customer` or `suspended`, and then the issue's row has
-- that status and the next version, one entry of the user that tells the move stands behind the
-- others, and nothing else is written. An issue that was not confirmed yet is taken on by a member of
-- its development team only, and whoever has it wait for the customer passed the test of a
-- consultation manager.
pub set_case_status-moves :
    (ref : Text) (v : ℕ) (status : CaseStatus) (actor_id : Uuid) (env : Env) (s s' : Session)
    (r : CommandResult)
    → set_case_status ref v status actor_id env s ≡ ok (r, s')
    → (case : Case) × (load_case ref env s.db ≡ ok case)
      × (case.version ≡ v)
      × (case.lifecycle_status ≡ LifecycleStatus.opened)
      × (assert_case_visible actor_id case env s.db ≡ ok tt)
      × (status ≢ CaseStatus.closed)
      × (status ≢ CaseStatus.pending_confirmation)
      × Outcome case status actor_id env s s' r
      × ((status ≢ CaseStatus.waiting_customer)
          ⊎ (assert_consult_manager actor_id case env s.db ≡ ok tt))
unfolding set_case_status assert_open
set_case_status-moves ref v status actor_id env s s' r h =
    let (case, loaded, h₁) = query_then-eq-ok _ _ env s h in
    let (_, versioned, h₂) = query_then-eq-ok _ _ env s h₁ in
    let (_, visible, h₃) = query_then-eq-ok _ _ env s h₂ in
    let (_, opened, h₄) = query_then-eq-ok _ _ env s h₃ in
    let (_, not_closed, h₅) = query_then-eq-ok _ _ env s h₄ in
    let (_, not_pending, h₆) = query_then-eq-ok _ _ env s h₅ in
    let (_, asked, h₇) = query_then-eq-ok _ _ env s h₆ in
    let a = ensure-eq-ok _ _ env s.db not_closed in
    let b = ensure-eq-ok _ _ env s.db not_pending in
    (
      case,
      loaded,
      expected_version-eq case v env s.db versioned,
      (lifecycle_status_eq.equal_iff case.lifecycle_status LifecycleStatus.opened).0
          (ensure-eq-ok _ _ env s.db opened),
      visible,
      not-equal status CaseStatus.closed a,
      not-equal status CaseStatus.pending_confirmation b,
      change_status-Outcome case status actor_id env s s' r (case.status == status) refl h₇,
      unless status CaseStatus.waiting_customer
          (asked_by_consult case status actor_id env s.db asked),
    )
