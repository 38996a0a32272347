-- ===== src/CaseDesk/Authorization.antt =====
-- Who may do what: the authorization of each command of a user in src/kefu/case_desk/service.py.
use message_router.Prelude.{ℕ, ◌≡◌, ap, Option, none, some, [], Text, nat_eq}
use message_router.Models.{Uuid, Case}
use message_router.Session.{Db, Env, ok}
use message_router.Session.Query
use message_router.Session.Query.{Query, ensure-eq-ok}
use message_router.Session.Tx.{Session, Tx, query, transact-eq-ok, query_then-eq-ok, ◌>>=◌}
use message_router.Directory.Access.{
  assert_case_visible, assert_consult_manager, assert_case_transfer_authorized,
  assert_dev_team_transfer_authorized,
}
use message_router.CaseDesk.Commands.{
  Command, CommandResult, person, adjust_case_deadline, set_case_deadline, extend_case_deadline,
  set_case_approaching_window, update_case_metadata, set_issue_current_status, transfer_consultant,
  transfer_dev_team, close_case, set_case_status, reopen_case, create_case, post_formal_message,
  correct_entry, delivery_item_succeeded, delivery_item_failed,
}
use message_router.CaseDesk.Common.{
  load_case, assert_expected_version, assert_consult_deadline_access,
}
use message_router.CaseDesk.Deadlines
use message_router.CaseDesk.Deadlines.{load_for_deadline}
use message_router.CaseDesk.Metadata
use message_router.CaseDesk.Transfers
use message_router.CaseDesk.Workflow
use message_router.CaseDesk.Workflow.Transitions.{expected_version-eq}
use message_router.CaseDesk.Execute.{handler, execute}
use message_router.CaseDesk.Versions.{target}

-- The test that a command on one issue has to pass: managers of the consultation queue run its issues,
-- its members and global administrators set the deadlines, and transfers have tests of their own.
abbrev pub authorization : Command → Uuid → Case → Query (Unit {0})
authorization (adjust_case_deadline r w m) a = assert_consult_deadline_access a
authorization (set_case_deadline r w m) a = assert_consult_deadline_access a
authorization (extend_case_deadline r w m) a = assert_consult_deadline_access a
authorization (set_case_approaching_window r w m) a = assert_consult_deadline_access a
authorization (update_case_metadata m) a = assert_consult_manager a
authorization (set_issue_current_status r w m) a = assert_consult_manager a
authorization (transfer_consultant r w m) a = assert_case_transfer_authorized a
authorization (transfer_dev_team r w m) a = assert_dev_team_transfer_authorized a
authorization (close_case r w) a = assert_consult_manager a
authorization (set_case_status r w m) a = assert_case_visible a
authorization (reopen_case r w m) a = assert_consult_manager a
authorization _ a = λ case. Query.pure tt

-- An issue that has the version that was seen, and on which the test is passed.
abbrev pub Authorized : (Case → Query (Unit {0})) → Text → ℕ → Env → Db → Type 0
Authorized test ref v env db =
    (case : Case) × (load_case ref env db ≡ ok case)
    × (case.version ≡ v)
    × (test case env db ≡ ok tt)

tested_third :
    (ref : Text) (v : ℕ) (test : Case → Query (Unit {0})) (f : Case → Unit {0} → Tx CommandResult)
    (env : Env) (s : Session) {r : CommandResult × Session}
    → (query (load_case ref) >>= λ c.
          query (assert_expected_version c (some v)) >>= λ _. query (test c) >>= f c)
        env s
      ≡ ok r
    → Authorized test ref v env s.db
tested_third ref v test f env s h =
    let (case, loaded, h₁) = query_then-eq-ok _ _ env s h in
    let (_, versioned, h₂) = query_then-eq-ok _ _ env s h₁ in
    let (_, passed, _) = query_then-eq-ok _ _ env s h₂ in
    (case, loaded, expected_version-eq case v env s.db versioned, passed)

tested_deadline :
    (ref : Text) (v : ℕ) (a : Uuid) (f : Case → Tx CommandResult) (env : Env) (s : Session)
    {r : CommandResult × Session}
    → (query (load_for_deadline ref v a) >>= f) env s ≡ ok r
    → Authorized (assert_consult_deadline_access a) ref v env s.db
unfolding load_for_deadline
tested_deadline ref v a f env s h =
    let (case₀, prepared, _) = query_then-eq-ok _ _ env s h in
    let (case, loaded, h₁) = Query.>>=-eq-ok _ _ env s.db prepared in
    let (_, versioned, h₂) = Query.>>=-eq-ok _ _ env s.db h₁ in
    let (_, _, h₃) = Query.>>=-eq-ok _ _ env s.db h₂ in
    let (_, passed, _) = Query.>>=-eq-ok _ _ env s.db h₃ in
    (case, loaded, expected_version-eq case v env s.db versioned, passed)

abbrev ref_of : Option (Text × ℕ) → Text
ref_of none = []
ref_of (some (ref, v)) = ref

abbrev version_of : Option (Text × ℕ) → ℕ
version_of none = 0
version_of (some (ref, v)) = v

handler-Authorized :
    (command : Command) (a : Uuid) (env : Env) (s : Session) (t : Text × ℕ)
    {r : CommandResult × Session}
    → target command ≡ some t
    → handler command (person a) env s ≡ ok r
    → Authorized
        (authorization command a)
        (ref_of (target command))
        (version_of (target command))
        env
        s.db
unfolding handler Deadlines.adjust_case_deadline Deadlines.set_case_deadline
    Deadlines.extend_case_deadline Deadlines.set_case_approaching_window
    Metadata.update_case_metadata Metadata.set_issue_current_status Transfers.transfer_consultant
    Transfers.transfer_dev_team Workflow.close_case Workflow.set_case_status Workflow.reopen_case
handler-Authorized (adjust_case_deadline r w m) a env s t e h = tested_deadline r w a _ env s h
handler-Authorized (set_case_deadline r w m) a env s t e h = tested_deadline r w a _ env s h
handler-Authorized (extend_case_deadline r w m) a env s t e h = tested_deadline r w a _ env s h
handler-Authorized (set_case_approaching_window r w m) a env s t e h =
    tested_deadline r w a _ env s h
handler-Authorized (update_case_metadata m) a env s t e h =
    tested_third m.case_ref m.expected_version (assert_consult_manager a) _ env s h
handler-Authorized (set_issue_current_status r w m) a env s t e h =
    tested_third r w (assert_consult_manager a) _ env s h
handler-Authorized (transfer_consultant r w m) a env s t e h =
    tested_third r w (assert_case_transfer_authorized a) _ env s h
handler-Authorized (transfer_dev_team r w m) a env s t e h =
    tested_third r w (assert_dev_team_transfer_authorized a) _ env s h
handler-Authorized (close_case r w) a env s t e h =
    tested_third r w (assert_consult_manager a) _ env s h
handler-Authorized (set_case_status r w m) a env s t e h =
    tested_third r w (assert_case_visible a) _ env s h
handler-Authorized (reopen_case r w m) a env s t e h =
    tested_third r w (assert_consult_manager a) _ env s h
handler-Authorized (create_case m) a env s t e h = absurd (cc)
handler-Authorized (post_formal_message m) a env s t e h = absurd (cc)
handler-Authorized (correct_entry m) a env s t e h = absurd (cc)
handler-Authorized (delivery_item_succeeded m i k o) a env s t e h = absurd (cc)
handler-Authorized (delivery_item_failed m i k o) a env s t e h = absurd (cc)

-- If a user's command on one issue returns, then the issue exists, has the version that the command
-- names, and the user passed the command's test on it: the manager's test for the metadata, the current
-- status, closing and reopening; access to the deadlines for the deadline commands; the tests of
-- the two transfers; and visibility for a change of the status.
pub execute-Authorized :
    (command : Command) (a : Uuid) (env : Env) (db : Db) (ref : Text) (v : ℕ) (r : CommandResult)
    → target command ≡ some (ref, v)
    → (execute command (person a) env db).0 ≡ ok r
    → (case : Case) × (load_case ref env db ≡ ok case)
      × (case.version ≡ v)
      × (authorization command a case env db ≡ ok tt)
unfolding execute
execute-Authorized command a env db ref v r e h =
    let (s, returned) = transact-eq-ok (handler command (person a)) env db h in
    let (case, loaded, versioned, passed) =
      handler-Authorized command a env (record { db = db; drawn = 0; chosen = 0 }) (ref, v) e
        returned in
    (case, rw (ap ref_of e) at loaded, rw (ap version_of e) at versioned, passed)
