-- ===== src/Directory/Access.antt =====
-- The authorizations of src/kefu/routing/directory.py.
use message_router.Prelude.{
  Bool, true, false, not, ◌&&◌, ◌||◌, Option, none, some, nat_eq, option_beq, if◌then◌else◌,
}
use message_router.Models.{Uuid, User, TeamKind, EntrySide, entry_side_eq, Case}
use message_router.Session.{forbidden, routing_unavailable}
use message_router.Session.Query.{Query, pure, raise, ensure, ◌>>=◌, ◌>>◌}
use message_router.Directory.Lookup.{get_user, get_team, is_member, is_admin, is_global_admin}

unfoldable pub assert_global_admin : Uuid → Query User
assert_global_admin user_id = do
  user ← get_user user_id
  ensure user.is_global_admin forbidden
  pure user

unfoldable pub assert_case_visible : Uuid → Case → Query (Unit {0})
assert_case_visible viewer_id case = do
  get_user viewer_id
  global ← is_global_admin viewer_id
  consult ← is_member viewer_id case.consult_queue_id
  dev ← is_member viewer_id case.current_dev_team_id
  ensure (global || consult || dev) forbidden

-- The sides that `viewer_id` may speak for, and the one that was asked for.
sole_side : (consult dev : Bool) → Option EntrySide
sole_side true false = some EntrySide.consult
sole_side false true = some EntrySide.dev
sole_side _ _ = none

allowed : (consult dev : Bool) → EntrySide → Bool
allowed consult dev EntrySide.consult = consult
allowed consult dev EntrySide.dev = dev
allowed consult dev EntrySide.system = false

unfoldable pub side_for_actor : Uuid → Case → Option EntrySide → Query EntrySide
unfolding sole_side allowed
side_for_actor viewer_id case (some side) = do
  get_user viewer_id
  global ← is_global_admin viewer_id
  consult ← is_member viewer_id case.consult_queue_id
  dev ← is_member viewer_id case.current_dev_team_id
  ensure (if global then allowed true true side else allowed consult dev side) forbidden
  pure side
side_for_actor viewer_id case none = do
  get_user viewer_id
  global ← is_global_admin viewer_id
  ensure (not global) forbidden
  consult ← is_member viewer_id case.consult_queue_id
  dev ← is_member viewer_id case.current_dev_team_id
  elim (sole_side consult dev) [ none ↦ raise forbidden | some side ↦ pure side ]

unfoldable pub assert_consult_manager : Uuid → Case → Query (Unit {0})
assert_consult_manager actor_id case = do
  global ← is_global_admin actor_id
  consult ← is_member actor_id case.consult_queue_id
  admin ← is_admin actor_id case.consult_queue_id
  ensure (global || (consult && (option_beq (some actor_id) case.current_consultant_id || admin)))
      forbidden

unfoldable pub can_transfer_case : Uuid → Case → Query Bool
can_transfer_case actor_id case = do
  consult ← is_member actor_id case.consult_queue_id
  consult_admin ← is_admin actor_id case.consult_queue_id
  developer_admin ← is_admin actor_id case.current_dev_team_id
  pure (
      (option_beq (some actor_id) case.current_consultant_id && consult)
      || consult_admin
      || developer_admin)

unfoldable pub can_transfer_dev_team : Uuid → Case → Query Bool
can_transfer_dev_team actor_id case = do
  global ← is_global_admin actor_id
  dev ← is_member actor_id case.current_dev_team_id
  transfer ← can_transfer_case actor_id case
  pure (global || dev || transfer)

unfoldable pub assert_case_transfer_authorized : Uuid → Case → Query (Unit {0})
assert_case_transfer_authorized actor_id case = do
  allowed ← can_transfer_case actor_id case
  ensure allowed forbidden

unfoldable pub assert_dev_team_transfer_authorized : Uuid → Case → Query (Unit {0})
assert_dev_team_transfer_authorized actor_id case = do
  allowed ← can_transfer_dev_team actor_id case
  ensure allowed forbidden

unfoldable pub assert_consultant_in_queue : Uuid → Uuid → Query User
assert_consultant_in_queue consultant_id queue_id = do
  get_team queue_id TeamKind.consult_queue
  consultant ← get_user consultant_id
  member ← is_member consultant_id queue_id
  ensure member routing_unavailable
  pure consultant
