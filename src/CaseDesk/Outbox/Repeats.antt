-- ===== src/CaseDesk/Outbox/Repeats.antt =====
-- Reports on the deliveries of src/kefu/case_desk/service.py that a worker makes again.
use message_router.Prelude.{
  ◌≡◌, refl, ap, subst, Bool, true, false, ◌||◌, Option, some, none, [], ◌==◌, nat_eq, option_beq,
  first-matches, first-overwrite, Text, arith,
}
use message_router.Models.{
  Uuid, Case, WaitingOn, DeliveryStatus, delivery_status_eq, DeliveryItem, DeliveryItemStatus,
  delivery_item_status_eq, PlatformResult,
}
use message_router.Session.{Db, Env, ok, ok-injective}
use message_router.Session.Query.{ensure-eq-ok}
use message_router.Session.Tx.{
  Session, >>=-eq-ok, pure, ◌>>=◌, query_then-eq-ok, transact-committed, modify_then-eq-ok,
}
use message_router.CaseDesk.Commands.{
  CommandResult, system_actor, delivery_item_succeeded, delivery_item_failed,
}
use message_router.CaseDesk.Common.{result, put_case, save_case}
use message_router.CaseDesk.Outbox.{
  Context, delivery_by_id, entry_of, case_of, delivery_context, delivery_item,
  assert_delivery_lease, put_delivery, put_item, sent_delivery, waiting_case, apply_transition,
  delivery_transition, finish_bundle, is_unsent_of, succeed_item, fail_item,
}
use message_router.CaseDesk.Outbox
use message_router.CaseDesk.Outbox.Leases.{report-sent}
use message_router.CaseDesk.Execute.{handler, execute}
use message_router.CaseDesk.Outbox.Rows.{
  IsContext, IsItem, delivery_context-IsContext, IsContext-delivery_context, delivery_item-IsItem,
  IsItem-delivery_item, accepted, put_item-IsItem, start,
}

-- The rows behind a report on an item that was sent, and that is accepted again.
abbrev IsSent : Uuid → Uuid → Uuid → Option Uuid → Db → Type 0
IsSent id item_id token entry_id db =
    (ctx : Context) × (item : DeliveryItem) × IsContext id ctx db
    × IsItem item_id ctx.delivery.id item db
    × (item.status ≡ DeliveryItemStatus.sent)
    × ((ctx.delivery.status == DeliveryStatus.sent)
          || option_beq ctx.delivery.lock_token (some token)
        ≡ true)
    × (some ctx.entry.id ≡ entry_id)

-- What the end of a bundle leaves: the delivery is sent, and the issue may wait for the other side.
sent_bundle :
    (id item_id token : Uuid) (ctx : Context) (item : DeliveryItem) (side : Option WaitingOn)
    (env : Env) (s s' : Session) (case : Case)
    → IsContext id ctx s.db
    → IsItem item_id ctx.delivery.id item s.db
    → item.status ≡ DeliveryItemStatus.sent
    → apply_transition side ctx.case env
        (record s { db = put_delivery (sent_delivery ctx.delivery) s.db })
      ≡ ok (case, s')
    → IsSent id item_id token (some ctx.entry.id) s'.db
unfolding put_delivery apply_transition save_case put_case ◌>>=◌ pure
sent_bundle id item_id token ctx item none env s s' case (d, e, c) i sent h =
    let same = first-matches (λ x. x.id == id) s.db.deliveries d in
    subst (λ x. IsSent id item_id token (some ctx.entry.id) x) (ap (λ p. p.1.db) (ok-injective h))
      (
        record { delivery = sent_delivery ctx.delivery; entry = ctx.entry; case = ctx.case },
        item,
        (
          first-overwrite (λ x. x.id == id) (λ x. x.id == ctx.delivery.id)
              (sent_delivery ctx.delivery) s.db.deliveries (λ z t. ground arith) same d,
          e,
          c,
        ),
        i,
        sent,
        refl,
        refl,
      )
sent_bundle id item_id token ctx item (some side) env s s' case (d, e, c) i sent h =
    let same = first-matches (λ x. x.id == id) s.db.deliveries d in
    let same_case = first-matches (λ x. x.id == ctx.entry.case_id) s.db.cases c in
    subst (λ x. IsSent id item_id token (some ctx.entry.id) x) (ap (λ p. p.1.db) (ok-injective h))
      (
        record {
          delivery = sent_delivery ctx.delivery;
          entry = ctx.entry;
          case = waiting_case ctx.case side;
        },
        item,
        (
          first-overwrite (λ x. x.id == id) (λ x. x.id == ctx.delivery.id)
              (sent_delivery ctx.delivery) s.db.deliveries (λ z t. ground arith) same d,
          e,
          first-overwrite (λ x. x.id == ctx.entry.case_id) (λ x. x.id == ctx.case.id)
              (waiting_case ctx.case side) s.db.cases (λ z t. ground arith) same_case c,
        ),
        i,
        sent,
        refl,
        refl,
      )

finish_bundle-IsSent :
    (remaining : Bool) (id item_id token : Uuid) (ctx : Context) (item : DeliveryItem) (env : Env)
    (s s' : Session) (r : CommandResult)
    → IsContext id ctx s.db
    → IsItem item_id ctx.delivery.id item s.db
    → item.status ≡ DeliveryItemStatus.sent
    → (ctx.delivery.status == DeliveryStatus.sent)
        || option_beq ctx.delivery.lock_token (some token)
      ≡ true
    → finish_bundle remaining ctx env s ≡ ok (r, s')
    → IsSent id item_id token r.entry_id s'.db
unfolding finish_bundle pure
finish_bundle-IsSent true id item_id token ctx item env s s' r rows i sent lease h =
    subst (λ (p : CommandResult × Session). IsSent id item_id token p.0.entry_id p.1.db)
      (ok-injective h) (ctx, item, rows, i, sent, lease, refl)
finish_bundle-IsSent false id item_id token ctx item env s s' r rows i sent lease h =
    let h₁ = modify_then-eq-ok _ _ env s h in
    let (side, _, h₂) = query_then-eq-ok _ _ env _ h₁ in
    let (case, t, applied, h₃) = >>=-eq-ok _ _ env _ h₂ in
    subst (λ (p : CommandResult × Session). IsSent id item_id token p.0.entry_id p.1.db)
      (ok-injective h₃)
      (sent_bundle id item_id token ctx item side env s t case rows i sent applied)

succeed_item-IsSent :
    (again : Bool) (id item_id token : Uuid) (ctx : Context) (item : DeliveryItem)
    (outcome : PlatformResult) (env : Env) (s s' : Session) (r : CommandResult)
    → (item.status == DeliveryItemStatus.sent) ≡ again
    → IsContext id ctx s.db
    → IsItem item_id ctx.delivery.id item s.db
    → (ctx.delivery.status == DeliveryStatus.sent)
        || option_beq ctx.delivery.lock_token (some token)
      ≡ true
    → succeed_item again ctx item outcome env s ≡ ok (r, s')
    → IsSent id item_id token r.entry_id s'.db
unfolding succeed_item pure put_item
succeed_item-IsSent true id item_id token ctx item outcome env s s' r e rows i lease h =
    subst (λ (p : CommandResult × Session). IsSent id item_id token p.0.entry_id p.1.db)
      (ok-injective h)
      (
        ctx,
        item,
        rows,
        i,
        (delivery_item_status_eq.equal_iff item.status DeliveryItemStatus.sent).0 e,
        lease,
        refl,
      )
succeed_item-IsSent false id item_id token ctx item outcome env s s' r e rows i lease h =
    let (_, _, h₁) = query_then-eq-ok _ _ env s h in
    let h₂ = modify_then-eq-ok _ _ env s h₁ in
    let (remaining, _, h₃) = query_then-eq-ok _ _ env _ h₂ in
    let sent_item : DeliveryItem = record item {
      status = DeliveryItemStatus.sent;
      last_error = none;
      platform_result = some outcome;
    } in
    finish_bundle-IsSent remaining id item_id token ctx sent_item env
      (record s { db = put_item sent_item s.db }) s' r rows
      (put_item-IsItem item_id ctx.delivery.id item sent_item s.db refl refl i) refl lease h₃

-- A success report that returned may be made again, at any later time that finds the same tables:
-- whatever the platform answers then, and also if the worker takes the item for failed, the report
-- is answered with an idempotent result for the same entry, and the tables stay as they were.
pub report-again :
    (id item_id token : Uuid) (outcome outcome' : PlatformResult) (error : Text) (env env' : Env)
    (db db' : Db) (r : CommandResult)
    → execute (delivery_item_succeeded id item_id token outcome) system_actor env db ≡ (ok r, db')
    → (r' : CommandResult) × (execute
          (delivery_item_succeeded id item_id token outcome')
          system_actor
          env'
          db'
        ≡ (ok r', db'))
      × (execute (delivery_item_failed id item_id token error) system_actor env' db' ≡ (ok r', db'))
      × (r'.entry_id ≡ r.entry_id)
      × (r'.idempotent ≡ true)
unfolding execute handler Outbox.delivery_item_succeeded assert_delivery_lease
report-again id item_id token outcome outcome' error env env' db db' r h =
    let (s, h₀, left) = transact-committed _ env db db' h in
    let (ctx, found, h₁) = query_then-eq-ok _ _ env (start db) h₀ in
    let (_, leased, h₂) = query_then-eq-ok _ _ env (start db) h₁ in
    let (item, there, h₃) = query_then-eq-ok _ _ env (start db) h₂ in
    let (ctx', item', rows, i, sent, lease, same) =
      subst (IsSent id item_id token r.entry_id) left (
        succeed_item-IsSent (item.status == DeliveryItemStatus.sent) id item_id token ctx item
          outcome env (start db) s r refl (delivery_context-IsContext id env db ctx found)
          (delivery_item-IsItem ctx.delivery.id item_id env db item there)
          (ensure-eq-ok _ _ env db leased) h₃) in
    let (success, failure) =
      report-sent id item_id token env' db' ctx' (IsContext-delivery_context id env' db' ctx' rows)
        outcome' error item' (accepted ctx'.delivery token env' db' lease)
        (IsItem-delivery_item ctx'.delivery.id item_id env' db' item' i) sent in
    (result ctx'.case (some ctx'.entry.id) [] true, success, failure, same, refl)
