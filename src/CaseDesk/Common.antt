-- ===== src/CaseDesk/Common.antt =====
-- The helpers that the commands of src/kefu/case_desk/service.py share.
use message_router.Prelude.{
  ℕ, Bool, true, false, not, ◌||◌, Option, none, some, List, [], ◌∷◌, ◌==◌, nat_eq, leb,
  if◌then◌else◌, Text, text_eq, strip, is_empty, length, first, update, select, any, all,
}
use message_router.Models.{
  Uuid, Case, CaseEntry, LifecycleStatus, lifecycle_status_eq, CaseEntryPart,
}
use message_router.Session.{Db, not_found, conflict, validation_error, forbidden}
use message_router.Session.Query.{Query, pure, gets, require, ensure, ◌>>=◌, ◌>>◌}
use message_router.Session.Tx.{Tx, modify}
use message_router.Directory.Lookup.{is_member, is_global_admin}
use message_router.Markers.{normalize_case_ref}
use message_router.CaseDesk.Commands.{CommandResult, ContentPart, text_part, image_part}

unfoldable pub load_case : Text → Query Case
load_case case_ref = do
  normalized ← normalize_case_ref case_ref
  found ← gets (λ env db. first (λ c. c.case_ref == normalized) db.cases)
  require found not_found

unfoldable pub case_by_id : Uuid → Query Case
case_by_id case_id = do
  found ← gets (λ env db. first (λ c. c.id == case_id) db.cases)
  require found not_found

-- Writes the columns of an issue that was loaded or added.
unfoldable pub put_case : Case → Db → Db
put_case case db = record db { cases = update (λ c. c.id == case.id) (λ _. case) db.cases }

unfoldable pub save_case : Case → Tx (Unit {0})
save_case case = modify (put_case case)

unfoldable pub assert_expected_version : Case → Option ℕ → Query (Unit {0})
assert_expected_version case none = pure tt
assert_expected_version case (some expected_version) = do
  ensure (leb 1 expected_version) validation_error
  ensure (case.version == expected_version) conflict

unfoldable pub assert_open : Case → Query (Unit {0})
assert_open case = ensure (case.lifecycle_status == LifecycleStatus.opened) validation_error

unfoldable pub has_consult_deadline_access : Uuid → Case → Query Bool
has_consult_deadline_access actor_id case = do
  global ← is_global_admin actor_id
  member ← is_member actor_id case.consult_queue_id
  pure (global || member)

unfoldable pub assert_consult_deadline_access : Uuid → Case → Query (Unit {0})
assert_consult_deadline_access actor_id case = do
  access ← has_consult_deadline_access actor_id case
  ensure access forbidden

abbrev pub result : Case → Option Uuid → List Uuid → Bool → CommandResult
result case entry_id delivery_ids idempotent = record {
  case_ref = case.case_ref;
  case_version = case.version;
  entry_id = entry_id;
  delivery_ids = delivery_ids;
  idempotent = idempotent;
}

unfoldable pub clean_source_msgid : Option Text → Query (Option Text)
clean_source_msgid none = pure none
clean_source_msgid (some source_msgid) =
    let cleaned = strip source_msgid in
    if is_empty cleaned
    then pure none
    else ensure (leb (length cleaned) 256) validation_error >> pure (some cleaned)

abbrev pub has_source : Text → Option Text → Bool
has_source msgid none = false
has_source msgid (some source_msgid) = source_msgid == msgid

unfoldable pub with_source : Option Text → Query (Option CaseEntry)
with_source none = pure none
with_source (some msgid) = gets (λ env db. first (λ e. has_source msgid e.source_msgid) db.entries)

unfoldable pub existing_source_entry : Option Text → Query (Option CaseEntry)
unfolding with_source
existing_source_entry source_msgid = do
  cleaned ← clean_source_msgid source_msgid
  with_source cleaned

-- The rows stand in the order in which they were added, which is that of their positions.
unfoldable pub entry_parts : Uuid → Query (List CaseEntryPart)
entry_parts entry_id = gets (λ env db. select (λ p. p.entry_id == entry_id) db.parts)

abbrev pub has_text : List ContentPart → Bool
has_text parts = any (λ part. elim part [ text_part s ↦ true | image_part id ↦ false ]) parts

-- one fragment of `_validate_parts`
unfoldable pub validate_part : ContentPart → Query ContentPart
validate_part (image_part media_id) = pure (image_part media_id)
validate_part (text_part s) = do
  let text = strip s
  ensure (not (is_empty text)) validation_error
  ensure (leb (length text) 20000) validation_error
  pure (text_part text)

unfoldable pub validate_each : List ContentPart → Query (List ContentPart)
validate_each [] = pure []
validate_each (part ∷ rest) = do
  normalized ← validate_part part
  others ← validate_each rest
  pure (normalized ∷ others)

unfoldable pub validate_parts : List ContentPart → Query (List ContentPart)
unfolding validate_each
validate_parts parts = do
  ensure (not (is_empty parts)) validation_error
  normalized ← validate_each parts
  ensure (has_text normalized) validation_error
  pure normalized

-- Is the fragment's image, if it is one, among the stored media?
abbrev pub is_stored : List Uuid → ContentPart → Bool
is_stored stored (text_part s) = true
is_stored stored (image_part media_id) = any (λ id. id == media_id) stored

unfoldable pub assert_media_exists : List ContentPart → Query (Unit {0})
assert_media_exists parts = do
  stored ← gets (λ env db. db.stored_media)
  ensure (all (is_stored stored) parts) validation_error
