-- ===== src/CaseDesk/Versions.antt =====
-- Optimistic locking in src/kefu/case_desk/service.py: a command that names an issue and the version
-- that its author saw is refused when the issue has moved on.
use message_router.Prelude.{
  ℕ, ◌≡◌, ◌≢◌, refl, ◌∙◌, true, false, Option, none, some, Text, leb, ◌==◌, nat_eq, arith,
}
use message_router.Models.{Uuid, Case}
use message_router.Session.{Db, Env, ok, err, conflict}
use message_router.Session.Query
use message_router.Session.Query.{ensure}
use message_router.Session.Tx.{Session, Tx, query, transact, ◌>>=◌}
use message_router.CaseDesk.Commands.{
  Command, person, adjust_case_deadline, set_case_deadline, extend_case_deadline,
  set_case_approaching_window, update_case_metadata, set_issue_current_status, transfer_consultant,
  transfer_dev_team, close_case, set_case_status, reopen_case, create_case, post_formal_message,
  correct_entry, delivery_item_succeeded, delivery_item_failed,
}
use message_router.CaseDesk.Common.{load_case, assert_expected_version}
use message_router.CaseDesk.Deadlines
use message_router.CaseDesk.Deadlines.{load_for_deadline}
use message_router.CaseDesk.Metadata
use message_router.CaseDesk.Transfers
use message_router.CaseDesk.Workflow
use message_router.CaseDesk.Execute.{handler, execute}

-- The reference and the version that a command on one issue names.
abbrev pub target : Command → Option (Text × ℕ)
target (adjust_case_deadline ref v minutes) = some (ref, v)
target (set_case_deadline ref v t) = some (ref, v)
target (extend_case_deadline ref v minutes) = some (ref, v)
target (set_case_approaching_window ref v minutes) = some (ref, v)
target (update_case_metadata c) = some (c.case_ref, c.expected_version)
target (set_issue_current_status ref v status) = some (ref, v)
target (transfer_consultant ref v to) = some (ref, v)
target (transfer_dev_team ref v to) = some (ref, v)
target (close_case ref v) = some (ref, v)
target (set_case_status ref v status) = some (ref, v)
target (reopen_case ref v waiting_on) = some (ref, v)
target _ = none

module _ (env : Env) (s : Session) (ref : Text) (v : ℕ) (case : Case)
    (loaded : load_case ref env s.db ≡ ok case) (counted : leb 1 v ≡ true)
    (stale : (case.version == v) ≡ false) where
  refused : assert_expected_version case (some v) env s.db ≡ err conflict
  unfolding assert_expected_version Query.◌>>=◌ ensure
  refused = rw counted (rw stale refl)

  then_conflict {ℓ} :
      {A : Type ℓ} (f : Case → Unit {0} → Tx A)
      → (query (load_case ref) >>= λ c. query (assert_expected_version c (some v)) >>= f c) env s
        ≡ err conflict
  unfolding ◌>>=◌
  then_conflict f = rw loaded (rw refused refl)

  deadline_refused : (a : Uuid) → load_for_deadline ref v a env s.db ≡ err conflict
  unfolding load_for_deadline
  deadline_refused a =
      Query.>>=-ok (load_case ref) _ env s.db loaded
      ∙ Query.>>=-err (assert_expected_version case (some v)) _ env s.db refused

  deadline_then_conflict {ℓ} :
      {A : Type ℓ} (a : Uuid) (f : Case → Tx A)
      → (query (load_for_deadline ref v a) >>= f) env s ≡ err conflict
  unfolding ◌>>=◌
  deadline_then_conflict a f = rw (deadline_refused a) refl

same_ref :
    {r ref : Text} {w v : ℕ} → Path (Option (Text × ℕ)) (some (r, w)) (some (ref, v)) → r ≡ ref
same_ref e = cc

same_version :
    {r ref : Text} {w v : ℕ} → Path (Option (Text × ℕ)) (some (r, w)) (some (ref, v)) → w ≡ v
same_version e = cc

-- A handler whose command has a target stops at the version.
handler-conflict :
    (command : Command) (actor_id : Uuid) (env : Env) (s : Session) (ref : Text) (v : ℕ)
    (case : Case)
    → target command ≡ some (ref, v)
    → load_case ref env s.db ≡ ok case
    → leb 1 v ≡ true
    → (case.version == v) ≡ false
    → handler command (person actor_id) env s ≡ err conflict
unfolding handler Deadlines.adjust_case_deadline Deadlines.set_case_deadline
    Deadlines.extend_case_deadline Deadlines.set_case_approaching_window
    Metadata.update_case_metadata Metadata.set_issue_current_status Transfers.transfer_consultant
    Transfers.transfer_dev_team Workflow.close_case Workflow.set_case_status Workflow.reopen_case
handler-conflict (adjust_case_deadline r w m) a env s ref v case e l c n =
    deadline_then_conflict env s r w case (rw (same_ref e) l) (rw (same_version e) c)
      (rw (same_version e) n) a _
handler-conflict (set_case_deadline r w m) a env s ref v case e l c n =
    deadline_then_conflict env s r w case (rw (same_ref e) l) (rw (same_version e) c)
      (rw (same_version e) n) a _
handler-conflict (extend_case_deadline r w m) a env s ref v case e l c n =
    deadline_then_conflict env s r w case (rw (same_ref e) l) (rw (same_version e) c)
      (rw (same_version e) n) a _
handler-conflict (set_case_approaching_window r w m) a env s ref v case e l c n =
    deadline_then_conflict env s r w case (rw (same_ref e) l) (rw (same_version e) c)
      (rw (same_version e) n) a _
handler-conflict (update_case_metadata m) a env s ref v case e l c n =
    then_conflict env s m.case_ref m.expected_version case (rw (same_ref e) l)
      (rw (same_version e) c) (rw (same_version e) n) _
handler-conflict (set_issue_current_status r w m) a env s ref v case e l c n =
    then_conflict env s r w case (rw (same_ref e) l) (rw (same_version e) c) (rw (same_version e) n)
      _
handler-conflict (transfer_consultant r w m) a env s ref v case e l c n =
    then_conflict env s r w case (rw (same_ref e) l) (rw (same_version e) c) (rw (same_version e) n)
      _
handler-conflict (transfer_dev_team r w m) a env s ref v case e l c n =
    then_conflict env s r w case (rw (same_ref e) l) (rw (same_version e) c) (rw (same_version e) n)
      _
handler-conflict (close_case r w) a env s ref v case e l c n =
    then_conflict env s r w case (rw (same_ref e) l) (rw (same_version e) c) (rw (same_version e) n)
      _
handler-conflict (set_case_status r w m) a env s ref v case e l c n =
    then_conflict env s r w case (rw (same_ref e) l) (rw (same_version e) c) (rw (same_version e) n)
      _
handler-conflict (reopen_case r w m) a env s ref v case e l c n =
    then_conflict env s r w case (rw (same_ref e) l) (rw (same_version e) c) (rw (same_version e) n)
      _
handler-conflict (create_case m) a env s ref v case e l c n = absurd (cc)
handler-conflict (post_formal_message m) a env s ref v case e l c n = absurd (cc)
handler-conflict (correct_entry m) a env s ref v case e l c n = absurd (cc)
handler-conflict (delivery_item_succeeded m i t o) a env s ref v case e l c n = absurd (cc)
handler-conflict (delivery_item_failed m i t o) a env s ref v case e l c n = absurd (cc)

-- If a command of a user names an issue that exists and a version from 1 that is not the issue's
-- current one, then `execute` raises `Conflict` and leaves the tables as they were. This is so for
-- the deadline commands, the update of the metadata, the issue's current status, the transfers, and
-- closing, moving and reopening an issue.
pub execute-conflict :
    (command : Command) (actor_id : Uuid) (env : Env) (db : Db) (ref : Text) (v : ℕ) (case : Case)
    → target command ≡ some (ref, v)
    → load_case ref env db ≡ ok case
    → leb 1 v ≡ true
    → case.version ≢ v
    → execute command (person actor_id) env db ≡ (err conflict, db)
unfolding execute transact
execute-conflict command actor_id env db ref v case e l c n =
    let stale : (case.version == v) ≡ false = ground arith in
    rw
      (handler-conflict command actor_id env (record { db = db; drawn = 0; chosen = 0 }) ref v case
        e l c stale)
      refl
