-- ===== src/Witnesses/Reports.antt =====
-- The theorems on the worker's reports, at the sample's bundle.
use message_router.Prelude.{◌≡◌, ◌⊎◌, refl, true, false, codes, first, update, any}
use message_router.Models.{returned, DeliveryItem, DeliveryItemStatus, DeliveryStatus, Delivery}
use message_router.Session.{Db, ok}
use message_router.Session.Query
use message_router.Session.Query.{gets, require, ensure}
use message_router.Session.Tx.{transact, ◌>>=◌}
use message_router.CaseDesk.Commands.{
  CommandResult, system_actor, delivery_item_succeeded, delivery_item_failed,
}
use message_router.CaseDesk.Common.{put_case, save_case}
use message_router.CaseDesk.Outbox
use message_router.CaseDesk.Outbox.{
  Context, delivery_context, delivery_by_id, entry_of, case_of, delivery_item,
  assert_delivery_lease, put_delivery, put_item, succeed_item, finish_bundle, is_unsent_of,
  apply_transition, delivery_transition, is_later_handoff, fail_item, failed_attempt, failed_item,
  safe_error,
}
use message_router.CaseDesk.Outbox.Rows.{IsContext, IsItem}
use message_router.CaseDesk.Outbox.Repeats.{report-again}
use message_router.CaseDesk.Outbox.Failures.{Counted, IsRefused, report-failed}
use message_router.CaseDesk.Execute.{handler, execute}
use message_router.Samples.{env, db}

succeeded :
    (r : CommandResult) × (after : Db) × (execute
        (delivery_item_succeeded 300 401 77 (returned (codes "{}")))
        system_actor
        env
        db
      ≡ (ok r, after))
unfolding execute handler transact Outbox.delivery_item_succeeded delivery_context delivery_by_id
    entry_of case_of delivery_item assert_delivery_lease succeed_item finish_bundle is_unsent_of
    apply_transition delivery_transition is_later_handoff put_delivery put_item put_case save_case
    first update any ◌>>=◌ Query.◌>>=◌ ensure
succeeded = (_, _, refl)

report-again_example :
    (r' : CommandResult) × (execute
        (delivery_item_succeeded 300 401 77 (returned (codes "{1}")))
        system_actor
        env
        succeeded.1
      ≡ (ok r', succeeded.1))
    × (execute (delivery_item_failed 300 401 77 (codes "late")) system_actor env succeeded.1
        ≡ (ok r', succeeded.1))
    × (r'.entry_id ≡ succeeded.0.entry_id)
    × (r'.idempotent ≡ true)
report-again_example =
    report-again 300 401 77 (returned (codes "{}")) (returned (codes "{1}")) (codes "late") env env
      db succeeded.1 succeeded.0 succeeded.2

failed :
    (r : CommandResult) × (after : Db) × (execute
        (delivery_item_failed 300 401 77 (codes "timeout"))
        system_actor
        env
        db
      ≡ (ok r, after))
unfolding execute handler transact Outbox.delivery_item_failed delivery_context delivery_by_id
    entry_of case_of delivery_item assert_delivery_lease fail_item failed_attempt failed_item
    safe_error put_delivery put_item first update ◌>>=◌ Query.◌>>=◌ ensure
failed = (_, _, refl)

report-failed_example :
    (ctx : Context) × (item : DeliveryItem) × IsContext 300 ctx db
    × IsItem 401 ctx.delivery.id item db
    × (((failed.0.idempotent ≡ true)
          × (failed.1 ≡ db)
          × ((item.status ≡ DeliveryItemStatus.sent)
              ⊎ (ctx.delivery.status ≡ DeliveryStatus.failed)))
        ⊎ ((failed.0.idempotent ≡ false)
            × ((d : Delivery) × Counted 300 401 env.now ctx item db failed.1 d)
            × ((ctx.delivery.status ≡ DeliveryStatus.sent)
                ⊎ IsRefused 300 401 77 (returned (codes "{}")) (codes "late") env failed.1)))
report-failed_example =
    report-failed 300 401 77 77 (returned (codes "{}")) (codes "timeout") (codes "late") env env db
      failed.1 failed.0 failed.2
