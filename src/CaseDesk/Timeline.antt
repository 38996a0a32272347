-- ===== src/CaseDesk/Timeline.antt =====
-- `_append_entry` and `_add_parts` of src/kefu/case_desk/service.py.
use message_router.Prelude.{
  ℕ, suc, ◌+◌, Option, none, some, List, [], ◌∷◌, ◌++◌, if◌then◌else◌, Text, is_empty,
}
use message_router.Models.{
  Uuid, User, Case, CaseEntry, CaseEntryKind, CaseEntryPart, EntryMetadata, EntrySide,
  MessageIntent, PartKind,
}
use message_router.Session.{Db, validation_error}
use message_router.Session.Query.{require}
use message_router.Session.Tx.{Tx, query, modify, uuid4, pure, ◌>>=◌, ◌>>◌}
use message_router.CaseDesk.Commands.{ContentPart, text_part, image_part}
use message_router.CaseDesk.Common.{save_case}

-- The keyword arguments of `_append_entry`.
pub record NewEntry : Type 0 where
  pub kind : CaseEntryKind
  pub side : EntrySide
  pub actor_user : Option User
  pub actor_name : Option Text
  pub intent : Option MessageIntent
  pub source_msgid : Option Text
  pub corrects_entry_id : Option Uuid
  pub metadata : EntryMetadata

-- An entry of the system, written for `user`.
abbrev pub system_entry : CaseEntryKind → User → EntryMetadata → NewEntry
system_entry kind user metadata = record {
  kind = kind;
  side = EntrySide.system;
  actor_user = some user;
  actor_name = none;
  intent = none;
  source_msgid = none;
  corrects_entry_id = none;
  metadata = metadata;
}

abbrev pub user_name : Option User → Option Text
user_name none = none
user_name (some user) = some user.display_name

-- `actor_name or actor_user.display_name`; neither is an error
unfoldable pub actor_name_snapshot : Option User → Option Text → Option Text
actor_name_snapshot user none = user_name user
actor_name_snapshot user (some name) = if is_empty name then user_name user else some name

abbrev pub user_id : Option User → Option Uuid
user_id none = none
user_id (some user) = some user.id

unfoldable pub add_entry : CaseEntry → Db → Db
add_entry entry db = record db { entries = db.entries ++ entry ∷ [] }

-- Returns the issue, with its sequence advanced, and the new entry.
unfoldable pub append_entry : Case → NewEntry → Tx (Case × CaseEntry)
append_entry case new = do
  name ← query (require (actor_name_snapshot new.actor_user new.actor_name) validation_error)
  id ← uuid4
  let case' = record case { last_entry_sequence = case.last_entry_sequence + 1 }
  let entry : CaseEntry = record {
    id = id;
    case_id = case.id;
    sequence = case'.last_entry_sequence;
    kind = new.kind;
    side = new.side;
    actor_user_id = user_id new.actor_user;
    actor_name_snapshot = name;
    message_intent = new.intent;
    source_msgid = new.source_msgid;
    corrects_entry_id = new.corrects_entry_id;
    metadata = new.metadata;
  }
  save_case case'
  modify (add_entry entry)
  pure (case', entry)

abbrev pub part_row : Uuid → Uuid → ℕ → ContentPart → CaseEntryPart
part_row id entry_id position (text_part s) = record {
  id = id;
  entry_id = entry_id;
  position = position;
  kind = PartKind.text;
  text = some s;
  media_id = none;
}
part_row id entry_id position (image_part media) = record {
  id = id;
  entry_id = entry_id;
  position = position;
  kind = PartKind.image;
  text = none;
  media_id = some media;
}

unfoldable pub add_part : CaseEntryPart → Db → Db
add_part part db = record db { parts = db.parts ++ part ∷ [] }

-- `for position, part in enumerate(parts)`
unfoldable pub add_parts_from : Uuid → ℕ → List ContentPart → Tx (Unit {0})
add_parts_from entry_id position [] = pure tt
add_parts_from entry_id position (part ∷ rest) = do
  id ← uuid4
  modify (add_part (part_row id entry_id position part))
  add_parts_from entry_id (suc position) rest

unfoldable pub add_parts : CaseEntry → List ContentPart → Tx (Unit {0})
unfolding add_parts_from
add_parts entry parts = add_parts_from entry.id 0 parts
