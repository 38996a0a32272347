-- ===== src/CaseDesk/Outbox/Leases.antt =====
-- The leases of the deliveries of src/kefu/case_desk/service.py.
use message_router.Prelude.{
  ◌≡◌, ◌≢◌, refl, ◌∙◌, ap, true, false, ◌||◌, some, [], ◌==◌, nat_eq, option_beq, option_beq_iff,
  Text, arith,
}
use message_router.Models.{
  Uuid, DeliveryStatus, delivery_status_eq, DeliveryItem, DeliveryItemStatus,
  delivery_item_status_eq, PlatformResult,
}
use message_router.Session.{Db, Env, ok, err, conflict}
use message_router.Session.Query.{ensure}
use message_router.Session.Tx.{Session, transact, commit, ◌>>=◌, query_then-ok, query_then-err}
use message_router.CaseDesk.Commands.{system_actor, delivery_item_succeeded, delivery_item_failed}
use message_router.CaseDesk.Common.{result}
use message_router.CaseDesk.Outbox.{
  Context, delivery_context, delivery_item, assert_delivery_lease, failed_attempt, retry_limit,
  succeed_item, fail_item,
}
use message_router.CaseDesk.Outbox
use message_router.CaseDesk.Execute.{handler, execute}

abbrev start : Db → Session
start db = record { db = db; drawn = 0; chosen = 0 }

module _ (id item_id token : Uuid) (env : Env) (db : Db) (ctx : Context)
    (found : delivery_context id env db ≡ ok ctx) where
  lost_lease :
      ctx.delivery.status ≢ DeliveryStatus.sent
      → ctx.delivery.lock_token ≢ some token
      → assert_delivery_lease ctx.delivery token env db ≡ err conflict
  unfolding assert_delivery_lease ensure
  lost_lease p q =
      let r : option_beq ctx.delivery.lock_token (some token) ≡ false =
        ground (arith, option_beq_iff ctx.delivery.lock_token (some token)) in
      let t : (ctx.delivery.status == DeliveryStatus.sent) ≡ false =
        ground (arith, delivery_status_eq.equal_iff ctx.delivery.status DeliveryStatus.sent) in
      rw t (rw r refl)

  -- A worker that reports on a delivery which is not sent yet, and whose lease is not the one that it
  -- names, is refused with `Conflict`, be the report a success or a failure, and the tables stay as
  -- they were.
  pub report-lost_lease :
      (outcome : PlatformResult) (error : Text)
      → ctx.delivery.status ≢ DeliveryStatus.sent
      → ctx.delivery.lock_token ≢ some token
      → (execute (delivery_item_succeeded id item_id token outcome) system_actor env db
          ≡ (err conflict, db))
        × (execute (delivery_item_failed id item_id token error) system_actor env db
            ≡ (err conflict, db))
  unfolding execute transact handler Outbox.delivery_item_succeeded Outbox.delivery_item_failed
  report-lost_lease outcome error p q =
      let lost = lost_lease p q in
      (
        ap (λ r. commit r db)
            (query_then-ok (delivery_context id) _ env (start db) found
              ∙ query_then-err (assert_delivery_lease ctx.delivery token) _ env (start db) lost),
        ap (λ r. commit r db)
            (query_then-ok (delivery_context id) _ env (start db) found
              ∙ query_then-err (assert_delivery_lease ctx.delivery token) _ env (start db) lost),
      )

  already_sent :
      (outcome : PlatformResult) (error : Text) (item : DeliveryItem) (s : Session)
      → item.status ≡ DeliveryItemStatus.sent
      → (succeed_item (item.status == DeliveryItemStatus.sent) ctx item outcome env s
          ≡ ok (result ctx.case (some ctx.entry.id) [] true, s))
        × (fail_item
              ((item.status == DeliveryItemStatus.sent)
                || (ctx.delivery.status == DeliveryStatus.failed))
              ctx
              item
              error
              env
              s
            ≡ ok (result ctx.case (some ctx.entry.id) [] true, s))
  unfolding succeed_item fail_item ◌>>=◌
  already_sent outcome error item s sent = (rw sent refl, rw sent refl)

  pub report-sent :
      (outcome : PlatformResult) (error : Text) (item : DeliveryItem)
      → assert_delivery_lease ctx.delivery token env db ≡ ok tt
      → delivery_item ctx.delivery.id item_id env db ≡ ok item
      → item.status ≡ DeliveryItemStatus.sent
      → (execute (delivery_item_succeeded id item_id token outcome) system_actor env db
          ≡ (ok (result ctx.case (some ctx.entry.id) [] true), db))
        × (execute (delivery_item_failed id item_id token error) system_actor env db
            ≡ (ok (result ctx.case (some ctx.entry.id) [] true), db))
  unfolding execute transact handler Outbox.delivery_item_succeeded Outbox.delivery_item_failed
  report-sent outcome error item held there sent = (
    ap (λ r. commit r db)
        (query_then-ok (delivery_context id) _ env (start db) found
          ∙ query_then-ok (assert_delivery_lease ctx.delivery token) _ env (start db) held
          ∙ query_then-ok (delivery_item ctx.delivery.id item_id) _ env (start db) there
          ∙ (already_sent outcome error item (start db) sent).0),
    ap (λ r. commit r db)
        (query_then-ok (delivery_context id) _ env (start db) found
          ∙ query_then-ok (assert_delivery_lease ctx.delivery token) _ env (start db) held
          ∙ query_then-ok (delivery_item ctx.delivery.id item_id) _ env (start db) there
          ∙ (already_sent outcome error item (start db) sent).1),
  )
