-- ===== src/CaseDesk/Outgoing.antt =====
-- The deliveries that src/kefu/case_desk/service.py creates beside an entry.
use message_router.Prelude.{
  ℕ, suc, Bool, true, false, not, Option, none, some, List, [], ◌∷◌, ◌++◌, Text, codes, strip,
  is_empty, or_else,
}
use message_router.Models.{
  Uuid, Case, CaseEntry, EntryMetadata, corrected_from, EntrySide, WaitingOn, Delivery,
  DeliveryItem, DeliveryDestination, DeliveryStatus, DeliveryItemStatus, PlatformResult,
}
use message_router.Session.{
  Db, Error, Result, ok, err, value_error, validation_error, routing_unavailable,
}
use message_router.Session.Query
use message_router.Session.Query.{Query, gets, ensure, raise}
use message_router.Session.Tx.{Tx, query, modify, uuid4, pure, ◌>>=◌, ◌>>◌}
use message_router.Directory.Lookup.{TeamChannel, active_channel, active_consult_channel}
use message_router.Numbering.{next_bug_number}
use message_router.Formatting.{RenderedDeliveryItem, build_formal_bundle, build_notice_bundle}
use message_router.CaseDesk.Common.{save_case, entry_parts}

-- Where a delivery goes, and what its success means.
pub record Target : Type 0 where
  pub destination_type : DeliveryDestination
  pub destination_address : Text
  pub waiting_on_after_delivery : Option WaitingOn
  pub delivery_status : DeliveryStatus
  pub item_status : DeliveryItemStatus
  pub item_platform_result : Option PlatformResult

-- The defaults of `_create_delivery`: to be sent by the worker.
abbrev pub to_send : DeliveryDestination → Text → Option WaitingOn → Target
to_send destination_type destination_address waiting_on_after_delivery = record {
  destination_type = destination_type;
  destination_address = destination_address;
  waiting_on_after_delivery = waiting_on_after_delivery;
  delivery_status = DeliveryStatus.pending;
  item_status = DeliveryItemStatus.pending;
  item_platform_result = none;
}

unfoldable pub add_delivery : Delivery → Db → Db
add_delivery delivery db = record db { deliveries = db.deliveries ++ delivery ∷ [] }

unfoldable pub add_item : DeliveryItem → Db → Db
add_item item db = record db { items = db.items ++ item ∷ [] }

-- `for position, rendered in enumerate(rendered_items)`
unfoldable pub add_items : Uuid → Target → ℕ → List RenderedDeliveryItem → Tx (Unit {0})
add_items delivery_id target position [] = pure tt
add_items delivery_id target position (rendered ∷ rest) = do
  id ← uuid4
  req_id ← uuid4
  modify (
      add_item (record {
        id = id;
        delivery_id = delivery_id;
        position = position;
        kind = rendered.kind;
        req_id = req_id;
        status = target.item_status;
        payload = rendered.payload;
        platform_result = target.item_platform_result;
        last_error = none;
      }))
  add_items delivery_id target (suc position) rest

unfoldable pub create_delivery : Uuid → Target → List RenderedDeliveryItem → Tx Uuid
unfolding add_items
create_delivery entry_id target rendered_items = do
  query (ensure (not (is_empty (strip target.destination_address))) routing_unavailable)
  id ← uuid4
  now ← query (gets (λ env db. env.now))
  modify (
      add_delivery (record {
        id = id;
        entry_id = entry_id;
        destination_type = target.destination_type;
        destination_address = target.destination_address;
        status = target.delivery_status;
        waiting_on_after_delivery = target.waiting_on_after_delivery;
        attempts = 0;
        next_attempt_at = now;
        last_error = none;
        lock_token = none;
        locked_until = none;
        created_at = now;
      }))
  add_items id target 0 rendered_items
  pure id

abbrev pub known_number : Option Text → Text
known_number none = []
known_number (some s) = s

unfoldable pub number_case : Bool → Case → Tx (Case × Text)
number_case false case = pure (case, known_number case.bug_number)
number_case true case = do
  number ← next_bug_number case.created_at
  let case' = record case { bug_number = some number }
  save_case case'
  pure (case', number)

-- The issue, with a number if it had none, and the number.
unfoldable pub ensure_bug_number : Case → Tx (Case × Text)
unfolding number_case
ensure_bug_number case = number_case (is_empty (known_number case.bug_number)) case

unfoldable pub original_speaker_name : CaseEntry → Text
original_speaker_name entry = named entry.metadata
  where
    named : EntryMetadata → Text
    named (corrected_from case_ref original) = or_else (strip original) entry.actor_name_snapshot
    named _ = entry.actor_name_snapshot

-- `except ValueError as error: raise ValidationError(...)`
abbrev pub value_error_to_validation : Error → Error
value_error_to_validation value_error = validation_error
value_error_to_validation e = e

abbrev pub or_validation {ℓ} : {A : Type ℓ} → Result A → Result A
or_validation (ok a) = ok a
or_validation (err e) = err (value_error_to_validation e)

unfoldable pub formal_bundle : Case → Text → CaseEntry → Query (List RenderedDeliveryItem)
formal_bundle case bug_number entry = Query.◌>>=◌ (entry_parts entry.id) λ parts env db.
    or_validation (
      build_formal_bundle case.case_ref bug_number case.title case.customer_name
        (original_speaker_name entry) parts env db)

unfoldable pub create_formal_delivery : Case → CaseEntry → Target → Tx (Case × Uuid)
unfolding formal_bundle
create_formal_delivery case entry target = do
  (case', bug_number) ← ensure_bug_number case
  rendered ← query (formal_bundle case' bug_number entry)
  id ← create_delivery entry.id target rendered
  pure (case', id)

-- What a notice says, and whether it carries a text that can be quoted.
pub record Notice : Type 0 where
  pub content : Text
  pub event_type : Text
  pub include_markdown : Bool

unfoldable pub create_notice_delivery :
    CaseEntry → Case → DeliveryDestination → Text → Notice → Tx (Case × Uuid)
create_notice_delivery entry case destination_type destination_address notice = do
  (case', bug_number) ← ensure_bug_number case
  history_url ← query (gets (λ env db. env.web_base_url ++ codes "/events/" ++ case.case_ref))
  rendered ←
      build_notice_bundle case'.case_ref bug_number case'.title notice.event_type
        entry.actor_name_snapshot notice.content history_url notice.include_markdown
  id ← create_delivery entry.id (to_send destination_type destination_address none) rendered
  pure (case', id)

-- The group of the other side.
unfoldable pub destination_for_side : Case → EntrySide → Query TeamChannel
destination_for_side case EntrySide.consult = active_channel case.current_dev_team_id
destination_for_side case EntrySide.dev = active_consult_channel case.consult_queue_id
destination_for_side case EntrySide.system = raise validation_error

unfoldable pub opposite_waiting_side : EntrySide → Query WaitingOn
opposite_waiting_side EntrySide.consult = Query.pure WaitingOn.dev
opposite_waiting_side EntrySide.dev = Query.pure WaitingOn.consult
opposite_waiting_side EntrySide.system = raise validation_error
