-- ===== src/CaseDesk/Metadata.antt =====
-- `_update_case_metadata` and `_set_issue_current_status` of src/kefu/case_desk/service.py.
use message_router.Prelude.{
  ℕ, ◌+◌, Bool, true, false, ◌&&◌, ◌||◌, Option, none, some, List, [], ◌∷◌, ◌++◌, ◌==◌, nat_eq,
  if◌then◌else◌, Text, text_eq, codes, strip, is_empty, length, leb, any, update, option_beq,
  clean_optional_text, or_else,
}
use message_router.Models.{
  Uuid, Case, CaseEntryKind, CasePriority, FieldChange, text_change, priority_change, changes,
  IssueStatusUpdateJob, IssueStatusUpdateState, issue_status_update_state_eq,
}
use message_router.Session.{Db, validation_error}
use message_router.Session.Query
use message_router.Session.Query.{Query, ensure}
use message_router.Session.Tx.{Tx, query, modify, pure, ◌>>=◌, ◌>>◌}
use message_router.Directory.Lookup.{get_user}
use message_router.Directory.Access.{assert_consult_manager}
use message_router.CaseDesk.Commands.{CommandResult, UpdateCaseMetadata}
use message_router.CaseDesk.Common.{load_case, assert_expected_version, result}
use message_router.CaseDesk.Timeline.{append_entry, system_entry}

-- `(name or "").strip() or "未录入"`
unfoldable pub validated_customer_name : Option Text → Text
validated_customer_name none = codes "未录入"
validated_customer_name (some name) = or_else (strip name) (codes "未录入")

unfoldable pub validated_customer_group_name : Option Text → Query (Option Text)
validated_customer_group_name none = Query.pure none
validated_customer_group_name (some name) =
    Query.◌>>◌ (ensure (leb (length (strip name)) 256) validation_error)
      (Query.pure (if is_empty (strip name) then none else some (strip name)))

-- `_case_customer_group_name`
unfoldable pub case_customer_group_name : Case → Text
case_customer_group_name case = elim case.customer_group_name [ none ↦ [] | some name ↦ strip name ]

unfoldable pub new_group_name : Case → Option Text → Query (Option Text)
new_group_name case none = Query.pure (some (case_customer_group_name case))
new_group_name case (some name) = validated_customer_group_name (some name)

-- The priorities have no `==` of the other enumerations: three members.
unfoldable pub priority_beq : CasePriority → CasePriority → Bool
priority_beq CasePriority.normal CasePriority.normal = true
priority_beq CasePriority.urgent CasePriority.urgent = true
priority_beq CasePriority.severe CasePriority.severe = true
priority_beq _ _ = false

unfoldable pub text_if_changed : Text → Option Text → Option Text → List FieldChange
text_if_changed name old new = if option_beq old new then [] else text_change name old new ∷ []

unfoldable pub priority_if_changed : CasePriority → CasePriority → List FieldChange
unfolding priority_beq
priority_if_changed old new = if priority_beq old new then [] else priority_change old new ∷ []

-- The changed columns, in the order of the source's dictionary.
unfoldable pub field_changes : Case → Case → List FieldChange
unfolding text_if_changed priority_if_changed
field_changes case new =
    text_if_changed (codes "customer_name") (some case.customer_name) (some new.customer_name)
    ++ text_if_changed (codes "customer_group_name") (some (case_customer_group_name case))
        new.customer_group_name
    ++ text_if_changed (codes "customer_contact_name") case.customer_contact_name
        new.customer_contact_name
    ++ text_if_changed (codes "customer_contact_method") case.customer_contact_method
        new.customer_contact_method
    ++ priority_if_changed case.priority new.priority

unfoldable pub write_metadata : List FieldChange → Case → Case → Uuid → Tx CommandResult
write_metadata [] case new actor_id = pure (result case none [] false)
write_metadata (change ∷ rest) case new actor_id = do
  actor_user ← query (get_user actor_id)
  (case', entry) ←
      append_entry (record new { version = new.version + 1 })
        (system_entry CaseEntryKind.case_metadata_updated actor_user (changes none (change ∷ rest)))
  pure (result case' (some entry.id) [] false)

unfoldable pub update_case_metadata : UpdateCaseMetadata → Uuid → Tx CommandResult
unfolding new_group_name write_metadata
update_case_metadata command actor_id = do
  case ← query (load_case command.case_ref)
  query (assert_expected_version case (some command.expected_version))
  query (assert_consult_manager actor_id case)
  query (get_user actor_id)
  customer_group_name ← query (new_group_name case command.customer_group_name)
  let new = record case {
    customer_name = validated_customer_name (some command.customer_name);
    customer_group_name = customer_group_name;
    customer_contact_name = clean_optional_text command.customer_contact_name;
    customer_contact_method = clean_optional_text command.customer_contact_method;
    priority = command.priority;
  }
  write_metadata (field_changes case new) case new actor_id

-- The values of `IssueCurrentStatus`.
abbrev pub issue_current_statuses : List Text
issue_current_statuses =
    codes "问题未回复"
    ∷ codes "需求待受理"
    ∷ codes "已解决"
    ∷ codes "升级需跟进"
    ∷ codes "数据待处理"
    ∷ codes "当前无法解决"
    ∷ []

unfoldable pub is_issue_current_status : Text → Bool
is_issue_current_status status = any (λ s. s == status) issue_current_statuses

-- A job that is still to be done for the issue.
unfoldable pub is_active_job : Uuid → IssueStatusUpdateJob → Bool
is_active_job case_id job =
    (job.case_id == case_id)
    && ((job.state == IssueStatusUpdateState.pending)
        || (job.state == IssueStatusUpdateState.processing))

abbrev pub cancel_job : IssueStatusUpdateJob → IssueStatusUpdateJob
cancel_job job = record job {
  state = IssueStatusUpdateState.cancelled;
  lock_token = none;
  locked_until = none;
  last_error = none;
}

unfoldable pub cancel_jobs : Uuid → Db → Db
cancel_jobs case_id db = record db { jobs = update (is_active_job case_id) cancel_job db.jobs }

unfoldable pub change_issue_status : Bool → Case → Text → Uuid → Tx CommandResult
change_issue_status true case status actor_id = pure (result case none [] true)
change_issue_status false case status actor_id = do
  actor_user ← query (get_user actor_id)
  modify (cancel_jobs case.id)
  let changed = record case { issue_current_status = status; version = case.version + 1 }
  (case', entry) ← append_entry changed (
      system_entry CaseEntryKind.case_metadata_updated actor_user (
        changes (some (codes "set_issue_current_status")) (
          text_change (codes "issue_current_status") (some case.issue_current_status) (some status)
          ∷ [])))
  pure (result case' (some entry.id) [] false)

unfoldable pub set_issue_current_status : Text → ℕ → Text → Uuid → Tx CommandResult
unfolding change_issue_status
set_issue_current_status case_ref expected_version status actor_id = do
  case ← query (load_case case_ref)
  query (assert_expected_version case (some expected_version))
  query (assert_consult_manager actor_id case)
  query (ensure (is_issue_current_status status) validation_error)
  change_issue_status (case.issue_current_status == status) case status actor_id
