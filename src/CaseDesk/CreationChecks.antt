-- ===== src/CaseDesk/CreationChecks.antt =====
-- What `_create_case` of src/kefu/case_desk/service.py settles before it writes: who creates the issue,
-- whether its message is known already, and the values of its columns.
use message_router.Prelude.{
  ℕ, zero, suc, ◌+◌, ◌*◌, Bool, true, false, not, ◌&&◌, Option, none, some, List, [], ◌∷◌, ◌++◌,
  ◌==◌, nat_eq, ltb, leb, if◌then◌else◌, Text, text_eq, codes, strip, is_empty, length, take, first,
  any, or_else,
}
use message_router.Models.{
  Uuid, Moment, User, TeamKind, team_kind_eq, EntrySide, entry_side_eq, Case, CaseEntry,
  IssueIntakeDraft,
}
use message_router.Session.{Db, forbidden, conflict, validation_error, not_found}
use message_router.Session.Query
use message_router.Session.Query.{Query, ensure, require, gets, when}
use message_router.Session.Tx.{Tx, query, pure, ◌>>=◌}
use message_router.Directory.Lookup.{get_user, active_team_for_chatid}
use message_router.Directory.Access.{assert_case_visible, assert_consultant_in_queue}
use message_router.Markers.{normalize_case_ref, new_case_ref, default_case_ref_length}
use message_router.CaseDesk.Commands.{
  Actor, person, group, system_actor, CommandResult, CreateCase, ContentPart, text_part, GivenTime,
  naive, aware,
}
use message_router.CaseDesk.Common.{case_by_id, result}
use message_router.CaseDesk.Deadlines.{minute}
use message_router.CaseDesk.Speakers.{possible_author}

pub record Creator : Type 0 where
  pub actor_id : Option Uuid
  pub handler_name : Text
  pub entry_actor_user : Option User
  pub entry_actor_name : Option Text

abbrev pub some_or : Option Text → Text → Text
some_or none default = default
some_or (some s) default = or_else s default

abbrev pub user_display_name : Option User → Option Text
user_display_name none = none
user_display_name (some user) = some user.display_name

-- `if actor.side is not EntrySide.CONSULT or not command.origin_chatid`
abbrev pub given_chatid : EntrySide → Option Text → Option Text
given_chatid EntrySide.consult (some chatid) = if is_empty chatid then none else some chatid
given_chatid _ _ = none

unfoldable pub creator_of : CreateCase → Actor → Query Creator
creator_of command (person user_id) = Query.◌>>=◌ (get_user user_id) λ user.
    Query.◌>>◌ (assert_consultant_in_queue user_id command.consult_queue_id) (
      Query.pure (record {
        actor_id = some user_id;
        handler_name = some_or command.consult_handler_name user.display_name;
        entry_actor_user = some user;
        entry_actor_name = none;
      }))
creator_of command (group side user_id) =
    Query.◌>>=◌ (require (given_chatid side command.origin_chatid) forbidden) λ chatid.
      Query.◌>>=◌ (active_team_for_chatid chatid) λ source_team.
        Query.◌>>◌ (ensure (source_team.kind == TeamKind.consult_queue) forbidden) (
          Query.◌>>◌ (ensure (source_team.id == command.consult_queue_id) forbidden) (
            Query.◌>>=◌ (possible_author user_id source_team.id) λ author. Query.pure (record {
              actor_id = none;
              handler_name = source_team.name;
              entry_actor_user = author;
              entry_actor_name = user_display_name author;
            })))
creator_of command system_actor = Query.raise forbidden

-- The tests on an issue that has the message already.
unfoldable pub assert_same_origin : Option Uuid → CreateCase → Case → Query (Unit {0})
assert_same_origin (some actor_id) command existing_case =
    assert_case_visible actor_id existing_case
assert_same_origin none command existing_case =
    ensure (existing_case.consult_queue_id == command.consult_queue_id) conflict

unfoldable pub existing_result :
    Creator → CreateCase → Option CaseEntry → Query (Option CommandResult)
unfolding assert_same_origin
existing_result creator command none = Query.pure none
existing_result creator command (some existing) =
    Query.◌>>=◌ (case_by_id existing.case_id) λ existing_case.
      Query.◌>>◌ (assert_same_origin creator.actor_id command existing_case)
        (Query.pure (some (result existing_case (some existing.id) [] true)))

abbrev pub first_text : List ContentPart → Text
first_text [] = []
first_text (text_part s ∷ rest) = s
first_text (_ ∷ rest) = first_text rest

unfoldable pub validated_title : Text → List ContentPart → Query Text
validated_title title parts =
    let normalized = or_else (strip title) (take 120 (first_text parts)) in
    Query.◌>>◌ (ensure (not (is_empty normalized)) validation_error)
      (Query.◌>>◌ (ensure (leb (length normalized) 512) validation_error) (Query.pure normalized))

unfoldable pub validated_handler_name : Text → Query Text
validated_handler_name name =
    Query.◌>>◌ (ensure (not (is_empty (strip name))) validation_error) (
      Query.◌>>◌ (ensure (leb (length (strip name)) 256) validation_error)
        (Query.pure (strip name)))

unfoldable pub validated_related_case : Option Uuid → Query (Option Uuid)
validated_related_case none = Query.pure none
validated_related_case (some id) =
    Query.◌>>=◌ (gets (λ env db. first (λ c. c.id == id) db.cases))
      λ found. Query.◌>>◌ (require found not_found) (Query.pure (some id))

-- Three hours from now, or a given time that lies ahead.
unfoldable pub chosen_deadline : Moment → Option GivenTime → Query Moment
chosen_deadline created_at none = Query.pure (created_at + 180 * minute)
chosen_deadline created_at (some naive) = Query.raise validation_error
chosen_deadline created_at (some (aware t)) =
    Query.◌>>◌ (ensure (ltb created_at t) validation_error) (Query.pure t)

abbrev pub is_new_ref : Text → Db → Bool
is_new_ref ref db =
    not (any (λ (c : Case). c.case_ref == ref) db.cases)
    && not (any (λ (d : IssueIntakeDraft). d.issue_number == ref) db.drafts)

-- `_new_unique_case_ref`: sixteen attempts
unfoldable pub unique_case_ref : ℕ → Tx Text
unique_case_ref zero = query (Query.raise conflict)
unique_case_ref (suc attempts) = do
  candidate ← new_case_ref default_case_ref_length
  new ← query (gets (λ env db. is_new_ref candidate db))
  if new then pure candidate else unique_case_ref attempts

unfoldable pub number_of : Option Text → Tx Text
unfolding unique_case_ref
number_of none = unique_case_ref 16
number_of (some s) = if is_empty s then unique_case_ref 16 else query (normalize_case_ref s)

abbrev pub is_source_of : Option Text → IssueIntakeDraft → (Uuid → Text) → Bool
is_source_of none draft show = false
is_source_of (some msgid) draft show = msgid == (codes "issue-intake:" ++ show draft.id)

abbrev pub may_use : Option Text → Option IssueIntakeDraft → (Uuid → Text) → Bool
may_use msgid none show = true
may_use msgid (some draft) show = is_source_of msgid draft show

-- The number is free, and is reserved for no other draft.
unfoldable pub assert_number_free : Text → Option Text → Query (Unit {0})
assert_number_free issue_number source_msgid =
    Query.◌>>=◌ (gets (λ env db. any (λ (c : Case). c.case_ref == issue_number) db.cases)) λ used.
      Query.◌>>◌ (ensure (not used) conflict) (
        Query.◌>>=◌
          (gets
            (λ env db. first (λ (d : IssueIntakeDraft). d.issue_number == issue_number) db.drafts))
          λ reservation.
            Query.◌>>=◌ (gets (λ env db. may_use source_msgid reservation env.show_uuid))
              λ usable. ensure usable conflict)

-- The values of `IssueModule`.
abbrev pub issue_modules : List Text
issue_modules =
    codes "盘中" ∷ codes "日常使用" ∷ codes "交易" ∷ codes "风控端" ∷ codes "结算" ∷ codes "绩效" ∷ codes "核算" ∷ []

abbrev pub is_issue_module : Option Text → Bool
is_issue_module none = false
is_issue_module (some s) = any (λ m. m == s) issue_modules

abbrev pub at_most : ℕ → Option Text → Bool
at_most n none = true
at_most n (some s) = leb (length s) n

abbrev pub id_or : Option Uuid → Uuid → Uuid
id_or none default = default
id_or (some id) default = id

abbrev pub window_or_default : Option ℕ → ℕ
window_or_default none = 1440
window_or_default (some n) = n
