-- ===== src/CaseDesk/Deadlines/Moves.antt =====
-- The commands of src/kefu/case_desk/service.py that move a deadline: what they accept and write.
use message_router.Prelude.{
  ℕ, ◌+◌, ◌*◌, ◌%◌, ◌≤◌, ◌≡◌, sym, subst, true, not, ◌&&◌, some, [], ◌∷◌, ◌==◌, nat_eq, leb, Text,
  codes, arith,
}
use message_router.Prelude.Int.{ℤ, pos, negsuc, nat_abs}
use message_router.Models.{
  User, Uuid, Moment, Case, CaseEntryKind, LifecycleStatus, lifecycle_status_eq, changes,
  moment_change,
}
use message_router.Session.{Db, Env, ok, ok-injective, validation_error}
use message_router.Session.Query
use message_router.Session.Query.{ensure, require, ensure-eq-ok, require-eq-ok}
use message_router.Session.Tx.{Session, query_then-eq-ok}
use message_router.Directory.Lookup.{get_user}
use message_router.CaseDesk.Commands.{CommandResult}
use message_router.CaseDesk.Common.{load_case, assert_consult_deadline_access}
use message_router.CaseDesk.Recorded.{Recorded, append_entry-Recorded}
use message_router.CaseDesk.Workflow.Transitions.{expected_version-eq}
use message_router.CaseDesk.Deadlines.{
  add_minutes, load_for_deadline, validated_deadline_minutes, validated_deadline_adjustment_minutes,
  move_deadline, new_deadline, record_change, adjust_case_deadline, extend_case_deadline,
}

-- The issue that a deadline command loaded is open and as the user saw it, and the user has the access.
abbrev pub Requested : Text → ℕ → Uuid → Env → Db → Case → Type 0
Requested ref v actor_id env db case =
    (load_case ref env db ≡ ok case)
    × (case.version ≡ v)
    × (case.lifecycle_status ≡ LifecycleStatus.opened)
    × (assert_consult_deadline_access actor_id case env db ≡ ok tt)

-- `u` is later than `t` by some minutes, or earlier, and within the calendar.
abbrev pub IsMoved : Moment → ℤ → Moment → Type 0
IsMoved t (pos n) u = (u ≡ t + n * 60_000_000) × (u ≤ 315_537_897_599_999_999)
IsMoved t (negsuc n) u = (u + (n + 1) * 60_000_000 ≡ t) × (u ≤ t)

-- The deadline of the issue is moved, and the entry tells from where to where.
abbrev pub Moved : Text → Case → ℤ → Uuid → Env → Db → Db → CommandResult → Type 0
Moved name case minutes actor_id env db db' r =
    (user : User) × (deadline : Moment) × (get_user actor_id env db ≡ ok user)
    × IsMoved case.deadline minutes deadline
    × Recorded
        (record case {
          deadline = deadline;
          version = case.version + 1;
          last_entry_sequence = case.last_entry_sequence + 1;
        })
        CaseEntryKind.case_metadata_updated user
        (changes (some name) (moment_change case.deadline deadline ∷ [])) db db' r

add_minutes-IsMoved : (t u : Moment) (m : ℤ) → add_minutes t m ≡ some u → IsMoved t m u
unfolding add_minutes
add_minutes-IsMoved t u (pos n) e = (ground arith, ground arith)
add_minutes-IsMoved t u (negsuc n) e = (ground arith, ground arith)

load_for_deadline-Requested :
    (ref : Text) (v : ℕ) (actor_id : Uuid) (env : Env) (db : Db) (case : Case)
    → load_for_deadline ref v actor_id env db ≡ ok case
    → Requested ref v actor_id env db case
unfolding load_for_deadline Query.pure
load_for_deadline-Requested ref v actor_id env db case h =
    let (c, loaded, h₁) = Query.>>=-eq-ok _ _ env db h in
    let (_, versioned, h₂) = Query.>>=-eq-ok _ _ env db h₁ in
    let (_, opened, h₃) = Query.>>=-eq-ok _ _ env db h₂ in
    let (_, access, h₄) = Query.>>=-eq-ok _ _ env db h₃ in
    subst (Requested ref v actor_id env db) (ok-injective h₄) (
      loaded,
      expected_version-eq c v env db versioned,
      (lifecycle_status_eq.equal_iff c.lifecycle_status LifecycleStatus.opened).0
          (ensure-eq-ok _ _ env db opened),
      access,
    )

move_deadline-Moved :
    (case : Case) (actor_id : Uuid) (name : Text) (minutes : ℤ) (env : Env) (s s' : Session)
    (r : CommandResult)
    → move_deadline case actor_id name minutes env s ≡ ok (r, s')
    → Moved name case minutes actor_id env s.db s'.db r
unfolding move_deadline new_deadline record_change
move_deadline-Moved case actor_id name minutes env s s' r h =
    let (_, _, h₁) = query_then-eq-ok _ _ env s h in
    let (deadline, computed, h₂) = query_then-eq-ok _ _ env s h₁ in
    let (user, known, h₃) = query_then-eq-ok _ _ env s h₂ in
    let sum =
      require-eq-ok (add_minutes case.deadline minutes) validation_error env s.db computed in
    (
      user,
      deadline,
      known,
      add_minutes-IsMoved case.deadline deadline minutes sum,
      append_entry-Recorded (record case { deadline = deadline; version = case.version + 1 })
          CaseEntryKind.case_metadata_updated user
          (changes (some name) (moment_change case.deadline deadline ∷ [])) env s s' r h₃,
    )

-- A number of minutes that is a multiple of 30, not none, and at most what an INTEGER column holds.
abbrev pub IsStep : ℕ → Type 0
IsStep n = (30 ≤ n) × (n ≤ 2_147_483_640) × (n % 30 ≡ 0)

tested-IsStep : (n : ℕ) → ((not (n == 0) && leb n 2_147_483_640) && (n % 30 == 0)) ≡ true → IsStep n
tested-IsStep n h = (ground arith, ground arith, ground arith)

adjustment-IsStep :
    (value minutes : ℤ) (env : Env) (db : Db)
    → validated_deadline_adjustment_minutes value env db ≡ ok minutes
    → (minutes ≡ value) × IsStep (nat_abs value)
unfolding validated_deadline_adjustment_minutes Query.pure
adjustment-IsStep value minutes env db h =
    let (_, tested, h₁) = Query.>>=-eq-ok _ _ env db h in
    let t = ensure-eq-ok _ _ env db tested in
    (sym (ok-injective h₁), tested-IsStep (nat_abs value) t)

extension-IsStep :
    (value : ℤ) (n : ℕ) (env : Env) (db : Db)
    → validated_deadline_minutes value env db ≡ ok n
    → (value ≡ pos n) × IsStep n
unfolding validated_deadline_minutes Query.◌>>=◌ ensure
extension-IsStep (pos m) n env db h = (ground arith, (ground arith, ground arith, ground arith))
extension-IsStep (negsuc m) n env db h = absurd (cc)

-- An adjustment that returns was asked for by a user with the access to deadlines, at the current
-- version of an open issue, by a multiple of 30 minutes, from 30 to 2147483640, forwards or backwards.
-- It leaves the issue with the deadline moved by that, within the calendar, and with the next version;
-- one entry of the user that tells both deadlines stands behind the others, and nothing else changed.
pub adjust_case_deadline-Moved :
    (ref : Text) (v : ℕ) (minutes : ℤ) (actor_id : Uuid) (env : Env) (s s' : Session)
    (r : CommandResult)
    → adjust_case_deadline ref v minutes actor_id env s ≡ ok (r, s')
    → (case : Case) × Requested ref v actor_id env s.db case
      × IsStep (nat_abs minutes)
      × Moved (codes "adjust_deadline") case minutes actor_id env s.db s'.db r
unfolding adjust_case_deadline
adjust_case_deadline-Moved ref v minutes actor_id env s s' r h =
    let (case, loaded, h₁) = query_then-eq-ok _ _ env s h in
    let (m, validated, h₂) = query_then-eq-ok _ _ env s h₁ in
    let (same, step) = adjustment-IsStep minutes m env s.db validated in
    (
      case,
      load_for_deadline-Requested ref v actor_id env s.db case loaded,
      step,
      subst (λ x. Moved (codes "adjust_deadline") case x actor_id env s.db s'.db r) same
          (move_deadline-Moved case actor_id (codes "adjust_deadline") m env s s' r h₂),
    )

-- An extension that returns was asked for by a user with the access to deadlines, at the current
-- version of an open issue, by `n` minutes, a multiple of 30 from 30 to 2147483640. It leaves the issue
-- with the deadline `n` minutes later, within the calendar, and with the next version; one entry of the
-- user that tells both deadlines stands behind the others, and nothing else changed.
pub extend_case_deadline-Moved :
    (ref : Text) (v : ℕ) (minutes : ℤ) (actor_id : Uuid) (env : Env) (s s' : Session)
    (r : CommandResult)
    → extend_case_deadline ref v minutes actor_id env s ≡ ok (r, s')
    → (case : Case) × (n : ℕ) × Requested ref v actor_id env s.db case
      × (minutes ≡ pos n)
      × IsStep n
      × Moved (codes "extend_deadline") case (pos n) actor_id env s.db s'.db r
unfolding extend_case_deadline
extend_case_deadline-Moved ref v minutes actor_id env s s' r h =
    let (case, loaded, h₁) = query_then-eq-ok _ _ env s h in
    let (n, validated, h₂) = query_then-eq-ok _ _ env s h₁ in
    let (same, step) = extension-IsStep minutes n env s.db validated in
    (
      case,
      n,
      load_for_deadline-Requested ref v actor_id env s.db case loaded,
      same,
      step,
      move_deadline-Moved case actor_id (codes "extend_deadline") (pos n) env s s' r h₂,
    )
