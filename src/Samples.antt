-- ===== src/Samples.antt =====
-- A small deployment: one consultation queue, one development team, three users and one issue.
use message_router.Prelude.{◌+◌, true, false, none, some, [], ◌∷◌, Text, codes}
use message_router.Models.{
  Uuid, User, Team, TeamKind, TeamMembership, MembershipRole, WeComChannel, Case, CaseStatus,
  CasePriority, LifecycleStatus, WaitingOn, CaseEntry, CaseEntryKind, EntrySide, MessageIntent,
  action, Delivery, DeliveryDestination, DeliveryStatus, DeliveryItem, DeliveryItemStatus, PartKind,
  content, deferred_passive_pending, IssueStatusUpdateJob, IssueStatusUpdateState,
}
use message_router.Session.{Db, Env, LocalDay}
use message_router.Session.Tx.{Session}
use message_router.CaseDesk.Outbox.{Context}

abbrev pub spring_day : LocalDay
spring_day = record { date_key = codes "2026-03-07"; month = 3; day = 7 }

abbrev pub env : Env
env = record {
  now = 1_000_000_000;
  uuid = λ n. 900 + n;
  choice = λ n. 5;
  shanghai = λ t. spring_day;
  is_word = λ c. false;
  upper = λ c. c ∷ [];
  show_uuid = λ id. codes "id";
  web_base_url = codes "https://desk";
}

abbrev pub consultant : User
consultant = record {
  id = 1;
  wecom_userid = codes "lin";
  display_name = codes "Lin";
  active = true;
  is_global_admin = false;
}

abbrev pub developer : User
developer = record {
  id = 2;
  wecom_userid = codes "bo";
  display_name = codes "Bo";
  active = true;
  is_global_admin = false;
}

abbrev team : Uuid → TeamKind → Text → Team
team id kind name = record {
  id = id;
  kind = kind;
  name = name;
  lead_display_name = none;
  active = true;
}

abbrev member : Uuid → Uuid → MembershipRole → TeamMembership
member team_id user_id role = record {
  team_id = team_id;
  user_id = user_id;
  role = role;
  valid_from = 0;
  valid_until = none;
}

abbrev channel : Uuid → Uuid → Text → WeComChannel
channel id team_id chatid = record {
  id = id;
  team_id = team_id;
  chatid = chatid;
  active = true;
  initialized_at = some 1;
}

abbrev pub issue : Case
issue = record {
  id = 100;
  case_ref = codes "ABCD123";
  title = codes "Login fails";
  customer_name = codes "Acme";
  customer_group_name = none;
  customer_contact_name = none;
  customer_contact_method = none;
  priority = CasePriority.normal;
  deadline = 500_000_000_000;
  approaching_window_minutes = 60;
  lifecycle_status = LifecycleStatus.opened;
  status = CaseStatus.pending_confirmation;
  waiting_on = WaitingOn.dev;
  consult_queue_id = 10;
  current_consultant_id = some 1;
  consult_handler_name = codes "Lin";
  current_dev_team_id = 20;
  initial_acceptance_team_id = none;
  creator_id = some 1;
  related_case_id = none;
  issue_description = none;
  suspected_type = none;
  issue_current_situation = none;
  issue_current_status = codes "问题未回复";
  bug_number = some (codes "030701");
  issue_source = none;
  initial_expires_at = none;
  version = 3;
  last_entry_sequence = 1;
  created_at = 1;
}

abbrev pub message : CaseEntry
message = record {
  id = 200;
  case_id = 100;
  sequence = 1;
  kind = CaseEntryKind.formal_message;
  side = EntrySide.consult;
  actor_user_id = some 1;
  actor_name_snapshot = codes "Lin";
  message_intent = some MessageIntent.handoff;
  source_msgid = none;
  corrects_entry_id = none;
  metadata = action (codes "create_case");
}

-- The bundle that a worker holds under the lease 77.
abbrev pub bundle : Delivery
bundle = record {
  id = 300;
  entry_id = 200;
  destination_type = DeliveryDestination.chat;
  destination_address = codes "dev-group";
  status = DeliveryStatus.pending;
  waiting_on_after_delivery = some WaitingOn.dev;
  attempts = 0;
  next_attempt_at = 1;
  last_error = none;
  lock_token = some 77;
  locked_until = some 2_000_000_000;
  created_at = 1;
}

abbrev item : Uuid → DeliveryItemStatus → DeliveryItem
item id status = record {
  id = id;
  delivery_id = 300;
  position = 0;
  kind = PartKind.text;
  req_id = id;
  status = status;
  payload = content (codes "Login fails");
  platform_result = none;
  last_error = none;
}

abbrev pub sent_item : DeliveryItem
sent_item = item 400 DeliveryItemStatus.sent

abbrev pub db : Db
db = record {
  users = consultant ∷ developer ∷ [];
  teams =
      team 10 TeamKind.consult_queue (codes "Consult") ∷ team 20 TeamKind.dev (codes "Dev") ∷ [];
  memberships = member 10 1 MembershipRole.member ∷ member 20 2 MembershipRole.member ∷ [];
  channels = channel 30 10 (codes "consult-group") ∷ channel 31 20 (codes "dev-group") ∷ [];
  cases = issue ∷ [];
  entries = message ∷ [];
  parts = [];
  deliveries = bundle ∷ [];
  items = sent_item ∷ item 401 DeliveryItemStatus.pending ∷ [];
  jobs = [];
  drafts = [];
  stored_media = [];
  bug_sequences = [];
  web_sessions = [];
}

abbrev pub session : Session
session = record { db = db; drawn = 0; chosen = 0 }

abbrev pub leased : Context
leased = record { delivery = bundle; entry = message; case = issue }

-- The bundle as a passive reply that a callback may still carry.
abbrev pub replying : Db
replying = record db {
  deliveries =
      record bundle { status = DeliveryStatus.sent; lock_token = none; locked_until = none } ∷ [];
  items = record sent_item { platform_result = some deferred_passive_pending } ∷ [];
}

-- A status evaluation that a worker holds under the lease 88.
abbrev pub evaluation : IssueStatusUpdateJob
evaluation = record {
  id = 500;
  case_id = 100;
  entry_id = 200;
  entry_sequence = 1;
  state = IssueStatusUpdateState.processing;
  attempts = 0;
  next_attempt_at = 1;
  lock_token = some 88;
  locked_until = some 2_000_000_000;
  last_error = none;
  completed_at = none;
  created_at = 1;
}

abbrev pub evaluating : Db
evaluating = record db { jobs = evaluation ∷ [] }

-- The same evaluation, before anyone holds it.
abbrev pub queued : Db
queued = record db {
  jobs =
      record evaluation {
        state = IssueStatusUpdateState.pending;
        lock_token = none;
        locked_until = none;
      }
      ∷ [];
}
