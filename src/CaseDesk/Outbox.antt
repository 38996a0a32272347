-- ===== src/CaseDesk/Outbox.antt =====
-- The worker's side of src/kefu/case_desk/service.py: it leases bundles and reports on their items.
pub mod Leases
pub mod Rows
pub mod Repeats
pub mod Failures
use message_router.Prelude.{
  ℕ, ◌+◌, ◌*◌, Bool, true, false, not, ◌&&◌, ◌||◌, Option, none, some, [], ◌==◌, nat_eq, option_beq,
  ltb, leb, if◌then◌else◌, Text, codes, strip, take, first, update, any, or_else,
}
use message_router.Models.{
  Uuid, Moment, Case, CaseEntry, CaseEntryKind, case_entry_kind_eq, MessageIntent,
  message_intent_eq, LifecycleStatus, lifecycle_status_eq, WaitingOn, Delivery, DeliveryItem,
  DeliveryStatus, delivery_status_eq, DeliveryItemStatus, delivery_item_status_eq, PlatformResult,
}
use message_router.Session.{Db, not_found, conflict}
use message_router.Session.Query
use message_router.Session.Query.{Query, gets, require, ensure}
use message_router.Session.Tx.{Tx, query, modify, pure, ◌>>=◌, ◌>>◌}
use message_router.CaseDesk.Commands.{CommandResult}
use message_router.CaseDesk.Common.{save_case, result}

-- RETRY_DELAYS: 5 seconds, 30 seconds, 2 minutes
abbrev pub retry_limit : ℕ
retry_limit = 3

abbrev pub second : ℕ
second = 1_000_000

-- `RETRY_DELAYS[attempts - 1]`, for attempts below the limit
unfoldable pub retry_delay : ℕ → ℕ
retry_delay attempts =
    if attempts == 1 then 5 * second else if attempts == 2 then 30 * second else 120 * second

pub record Context : Type 0 where
  pub delivery : Delivery
  pub entry : CaseEntry
  pub case : Case

unfoldable pub delivery_by_id : Uuid → Query Delivery
delivery_by_id id =
    Query.◌>>=◌ (gets (λ env db. first (λ (d : Delivery). d.id == id) db.deliveries))
      λ found. require found not_found

unfoldable pub entry_of : Delivery → Query CaseEntry
entry_of delivery =
    Query.◌>>=◌ (gets (λ env db. first (λ (e : CaseEntry). e.id == delivery.entry_id) db.entries))
      λ found. require found not_found

unfoldable pub case_of : CaseEntry → Query Case
case_of entry =
    Query.◌>>=◌ (gets (λ env db. first (λ (c : Case). c.id == entry.case_id) db.cases))
      λ found. require found not_found

-- `_locked_delivery_context`: a delivery with its entry and its issue
unfoldable pub delivery_context : Uuid → Query Context
delivery_context delivery_id = Query.◌>>=◌ (delivery_by_id delivery_id) λ delivery.
    Query.◌>>=◌ (entry_of delivery) λ entry.
      Query.◌>>=◌ (case_of entry)
        λ case. Query.pure (record { delivery = delivery; entry = entry; case = case })

unfoldable pub delivery_item : Uuid → Uuid → Query DeliveryItem
delivery_item delivery_id item_id =
    Query.◌>>=◌
      (gets (λ env db. first (λ i. (i.id == item_id) && (i.delivery_id == delivery_id)) db.items))
      λ found. require found not_found

unfoldable pub assert_delivery_lease : Delivery → Uuid → Query (Unit {0})
assert_delivery_lease delivery lock_token =
    ensure
      ((delivery.status == DeliveryStatus.sent) || option_beq delivery.lock_token (some lock_token))
      conflict

unfoldable pub put_delivery : Delivery → Db → Db
put_delivery delivery db = record db {
  deliveries = update (λ d. d.id == delivery.id) (λ _. delivery) db.deliveries;
}

unfoldable pub put_item : DeliveryItem → Db → Db
put_item item db = record db { items = update (λ i. i.id == item.id) (λ _. item) db.items }

-- Another handoff of the same issue, later than `entry`.
unfoldable pub is_later_handoff : Case → CaseEntry → CaseEntry → Bool
is_later_handoff case entry e =
    ((e.case_id == case.id) && ltb entry.sequence e.sequence)
    && (((e.kind == CaseEntryKind.formal_message) || (e.kind == CaseEntryKind.correction))
        && option_beq e.message_intent (some MessageIntent.handoff))

-- `_may_apply_delivery_transition`, with the side that it moves to
abbrev pub transition : Bool → Bool → Option WaitingOn → Option WaitingOn
transition is_open superseded none = none
transition is_open superseded (some side) = if is_open && not superseded then some side else none

unfoldable pub delivery_transition : Case → CaseEntry → Delivery → Query (Option WaitingOn)
delivery_transition case entry delivery =
    Query.◌>>=◌ (gets (λ env db. any (is_later_handoff case entry) db.entries)) λ superseded.
      Query.pure (
        transition (case.lifecycle_status == LifecycleStatus.opened) superseded
          delivery.waiting_on_after_delivery)

abbrev pub waiting_case : Case → WaitingOn → Case
waiting_case case side = record case { waiting_on = side; version = case.version + 1 }

unfoldable pub apply_transition : Option WaitingOn → Case → Tx Case
apply_transition none case = pure case
apply_transition (some side) case = do
  save_case (waiting_case case side)
  pure (waiting_case case side)

abbrev pub sent_delivery : Delivery → Delivery
sent_delivery delivery = record delivery {
  status = DeliveryStatus.sent;
  last_error = none;
  lock_token = none;
  locked_until = none;
}

-- The bundle is sent when none of its items remains.
unfoldable pub finish_bundle : Bool → Context → Tx CommandResult
finish_bundle true ctx = pure (result ctx.case (some ctx.entry.id) [] false)
finish_bundle false ctx = do
  modify (put_delivery (sent_delivery ctx.delivery))
  side ← query (delivery_transition ctx.case ctx.entry ctx.delivery)
  case ← apply_transition side ctx.case
  pure (result case (some ctx.entry.id) [] false)

unfoldable pub is_unsent_of : Uuid → DeliveryItem → Bool
is_unsent_of delivery_id i =
    (i.delivery_id == delivery_id) && not (i.status == DeliveryItemStatus.sent)

unfoldable pub succeed_item : Bool → Context → DeliveryItem → PlatformResult → Tx CommandResult
succeed_item true ctx item platform_result = pure (result ctx.case (some ctx.entry.id) [] true)
succeed_item false ctx item platform_result = do
  query (
      ensure
        (not (item.status == DeliveryItemStatus.failed)
          && not (ctx.delivery.status == DeliveryStatus.failed))
        conflict)
  modify (
      put_item (record item {
        status = DeliveryItemStatus.sent;
        last_error = none;
        platform_result = some platform_result;
      }))
  remaining ← query (gets (λ env db. any (is_unsent_of ctx.delivery.id) db.items))
  finish_bundle remaining ctx

unfoldable pub delivery_item_succeeded : Uuid → Uuid → Uuid → PlatformResult → Tx CommandResult
unfolding succeed_item finish_bundle apply_transition
delivery_item_succeeded delivery_id item_id lock_token platform_result = do
  ctx ← query (delivery_context delivery_id)
  query (assert_delivery_lease ctx.delivery lock_token)
  item ← query (delivery_item ctx.delivery.id item_id)
  succeed_item (item.status == DeliveryItemStatus.sent) ctx item platform_result

-- A failed attempt: the delivery waits for the next one, or has failed for good.
unfoldable pub failed_attempt : Delivery → Text → Moment → Delivery
failed_attempt delivery error now =
    let attempts = delivery.attempts + 1 in
    let final = leb retry_limit attempts in
    record delivery {
      attempts = attempts;
      last_error = some error;
      lock_token = none;
      locked_until = none;
      status = if final then DeliveryStatus.failed else delivery.status;
      next_attempt_at = if final then delivery.next_attempt_at else now + retry_delay attempts;
    }

unfoldable pub failed_item : Delivery → DeliveryItem → Text → DeliveryItem
failed_item delivery item error = record item {
  last_error = some error;
  status =
      if leb retry_limit (delivery.attempts + 1) then DeliveryItemStatus.failed else item.status;
}

-- `command.error.strip()[:2000] or "未知投递错误"`
unfoldable pub safe_error : Text → Text
safe_error error = or_else (take 2000 (strip error)) (codes "未知投递错误")

unfoldable pub fail_item : Bool → Context → DeliveryItem → Text → Tx CommandResult
fail_item true ctx item error = pure (result ctx.case (some ctx.entry.id) [] true)
fail_item false ctx item error = do
  now ← query (gets (λ env db. env.now))
  modify (put_delivery (failed_attempt ctx.delivery (safe_error error) now))
  modify (put_item (failed_item ctx.delivery item (safe_error error)))
  pure (result ctx.case (some ctx.entry.id) [] false)

unfoldable pub delivery_item_failed : Uuid → Uuid → Uuid → Text → Tx CommandResult
unfolding fail_item
delivery_item_failed delivery_id item_id lock_token error = do
  ctx ← query (delivery_context delivery_id)
  query (assert_delivery_lease ctx.delivery lock_token)
  item ← query (delivery_item ctx.delivery.id item_id)
  fail_item
      ((item.status == DeliveryItemStatus.sent) || (ctx.delivery.status == DeliveryStatus.failed))
      ctx item error
