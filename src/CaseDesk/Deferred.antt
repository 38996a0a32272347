-- ===== src/CaseDesk/Deferred.antt =====
-- The passive replies of src/kefu/case_desk/service.py: bundles that count as sent while a callback
-- may still carry them. The callback completes them, or they go back to the worker that pushes them.
pub mod Settled
pub mod Final
use message_router.Prelude.{
  ℕ, ◌+◌, Bool, true, false, ◌&&◌, Option, none, some, List, [], ◌∷◌, ◌==◌, nat_eq, leb, any, all,
  select, update, first, Text,
}
use message_router.Models.{
  Uuid, Moment, Case, Delivery, DeliveryItem, DeliveryStatus, delivery_status_eq,
  DeliveryItemStatus, delivery_item_status_eq, PartKind, part_kind_eq, Payload, content,
  PlatformResult, deferred_passive_pending, deferred_passive_completed,
}
use message_router.Session.{Db}
use message_router.Session.Query.{Query, gets}
use message_router.Session.Tx.{Tx, query, modify, pure, ◌>>=◌, ◌>>◌}
use message_router.CaseDesk.Outbox.{Context, put_delivery, delivery_transition, apply_transition}
use message_router.CaseDesk.Leasing.{joined, sort_by}

abbrev pub is_pending_mode : Option PlatformResult → Bool
is_pending_mode (some deferred_passive_pending) = true
is_pending_mode _ = false

unfoldable pub is_deferred_item : DeliveryItem → Bool
is_deferred_item i = (i.status == DeliveryItemStatus.sent) && is_pending_mode i.platform_result

unfoldable pub is_deferred_pending_delivery : Delivery → List DeliveryItem → Bool
unfolding is_deferred_item
is_deferred_pending_delivery d [] = false
is_deferred_pending_delivery d (i ∷ is) =
    (d.status == DeliveryStatus.sent) && all is_deferred_item (i ∷ is)

unfoldable pub items_of : Uuid → Db → List DeliveryItem
items_of delivery_id db = select (λ i. i.delivery_id == delivery_id) db.items

-- Assigns to the columns of every item of a delivery.
unfoldable pub put_items : Uuid → (DeliveryItem → DeliveryItem) → Db → Db
put_items delivery_id f db = record db {
  items = update (λ i. i.delivery_id == delivery_id) f db.items;
}

abbrev pub is_among : List Uuid → Delivery → Bool
is_among ids d = any (λ id. d.id == id) ids

abbrev pub restored_delivery : Moment → Delivery → Delivery
restored_delivery now d = record d {
  status = DeliveryStatus.pending;
  next_attempt_at = now;
  last_error = none;
  lock_token = none;
  locked_until = none;
}

abbrev pub restored_item : DeliveryItem → DeliveryItem
restored_item i = record i {
  status = DeliveryItemStatus.pending;
  platform_result = none;
  last_error = none;
}

-- `_restore_deferred_delivery`, which counts as one
unfoldable pub restore_deferred_delivery : Delivery → Tx ℕ
restore_deferred_delivery d = do
  now ← query (gets (λ env db. env.now))
  modify (put_delivery (restored_delivery now d))
  modify (put_items d.id restored_item)
  pure 1

unfoldable pub restore_if : Bool → Delivery → Tx ℕ
restore_if false d = pure 0
restore_if true d = restore_deferred_delivery d

unfoldable pub restore_each : List Delivery → Tx ℕ
unfolding restore_if
restore_each [] = pure 0
restore_each (d ∷ ds) = do
  items ← query (gets (λ env db. items_of d.id db))
  restored ← restore_if (is_deferred_pending_delivery d items) d
  rest ← restore_each ds
  pure (restored + rest)

-- `dict.fromkeys` drops repeated ids, which select the same rows.
unfoldable pub restore_deferred_deliveries : List Uuid → Tx ℕ
unfolding restore_each
restore_deferred_deliveries [] = pure 0
restore_deferred_deliveries (id ∷ ids) = do
  rows ← query (gets (λ env db. select (is_among (id ∷ ids)) db.deliveries))
  restore_each rows

-- Restores the placeholders of a worker that stopped mid-reply.
unfoldable pub recover_deferred_deliveries : Tx ℕ
unfolding restore_each
recover_deferred_deliveries = do
  rows ← query (gets (λ env db. select (λ d. d.status == DeliveryStatus.sent) db.deliveries))
  restore_each rows

abbrev pub completed_item : DeliveryItem → DeliveryItem
completed_item i = record i { platform_result = some deferred_passive_completed; last_error = none }

abbrev pub completed_delivery : Delivery → Delivery
completed_delivery d = record d { last_error = none; lock_token = none; locked_until = none }

-- The rows of one issue share it: a later row sees what an earlier one wrote.
abbrev pub found_or : Case → Option Case → Case
found_or case none = case
found_or case (some found) = found

unfoldable pub current_case : Case → Query Case
current_case case = gets (λ env db. found_or case (first (λ c. c.id == case.id) db.cases))

unfoldable pub complete_deferred_delivery : Context → Tx ℕ
complete_deferred_delivery row = do
  modify (put_items row.delivery.id completed_item)
  modify (put_delivery (completed_delivery row.delivery))
  case ← query (current_case row.case)
  side ← query (delivery_transition case row.entry row.delivery)
  apply_transition side case
  pure 1

unfoldable pub complete_if : Bool → Context → Tx ℕ
complete_if false row = pure 0
complete_if true row = complete_deferred_delivery row

unfoldable pub complete_each : List Context → Tx ℕ
unfolding complete_if
complete_each [] = pure 0
complete_each (row ∷ rows) = do
  items ← query (gets (λ env db. items_of row.delivery.id db))
  completed ← complete_if (is_deferred_pending_delivery row.delivery items) row
  rest ← complete_each rows
  pure (completed + rest)

unfoldable pub complete_deferred_deliveries : List Uuid → Tx ℕ
unfolding complete_each
complete_deferred_deliveries [] = pure 0
complete_deferred_deliveries (id ∷ ids) = do
  rows ← query (gets (λ env db. joined db (select (is_among (id ∷ ids)) db.deliveries)))
  complete_each rows

-- `item.payload_json.get("content")`, when it is a string
abbrev pub content_of : Payload → Option Text
content_of (content text) = some text
content_of _ = none

abbrev pub markdown_of : Bool → Option Text → Option Text → Option Text
markdown_of true (some text) rest = some text
markdown_of _ _ rest = rest

unfoldable pub first_content : List DeliveryItem → Option Text
first_content [] = none
first_content (i ∷ is) =
    markdown_of (i.kind == PartKind.text) (content_of i.payload) (first_content is)

unfoldable pub get_delivery_markdown_content : Uuid → Query (Option Text)
unfolding first_content sort_by items_of
get_delivery_markdown_content delivery_id =
    gets (λ env db.
      first_content (sort_by (λ i j. leb i.position j.position) (items_of delivery_id db)))
