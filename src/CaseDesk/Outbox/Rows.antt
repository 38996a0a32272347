-- ===== src/CaseDesk/Outbox/Rows.antt =====
-- The rows that a report of src/kefu/case_desk/service.py reads.
use message_router.Prelude.{
  ◌≡◌, refl, ◌∙◌, subst, true, ◌&&◌, ◌||◌, some, ◌==◌, nat_eq, option_beq, first, first-matches,
  first-overwrite, update, arith,
}
use message_router.Models.{
  Uuid, Delivery, DeliveryStatus, delivery_status_eq, DeliveryItem, delivery_item_status_eq,
}
use message_router.Session.{Db, Env, ok, ok-injective, not_found}
use message_router.Session.Query
use message_router.Session.Query.{gets, require, ensure, ensure-eq-ok, require-eq-ok}
use message_router.Session.Tx.{Session}
use message_router.CaseDesk.Outbox.{
  Context, delivery_by_id, entry_of, case_of, delivery_context, delivery_item,
  assert_delivery_lease,
}

abbrev pub start : Db → Session
start db = record { db = db; drawn = 0; chosen = 0 }

-- The rows behind a report: the delivery with its entry and its issue.
abbrev pub IsContext : Uuid → Context → Db → Type 0
IsContext id ctx db =
    (first (λ d. d.id == id) db.deliveries ≡ some ctx.delivery)
    × (first (λ e. e.id == ctx.delivery.entry_id) db.entries ≡ some ctx.entry)
    × (first (λ c. c.id == ctx.entry.case_id) db.cases ≡ some ctx.case)

abbrev pub IsItem : Uuid → Uuid → DeliveryItem → Db → Type 0
IsItem item_id delivery_id item db =
    first (λ i. (i.id == item_id) && (i.delivery_id == delivery_id)) db.items ≡ some item

pub delivery_context-IsContext :
    (id : Uuid) (env : Env) (db : Db) (ctx : Context)
    → delivery_context id env db ≡ ok ctx
    → IsContext id ctx db
unfolding delivery_context delivery_by_id entry_of case_of Query.pure
delivery_context-IsContext id env db ctx h =
    let (d, found, h₁) = Query.>>=-eq-ok _ _ env db h in
    let (e, written, h₂) = Query.>>=-eq-ok _ _ env db h₁ in
    let (c, owned, h₃) = Query.>>=-eq-ok _ _ env db h₂ in
    subst (λ x. IsContext id x db) (ok-injective h₃)
      (
        Query.gets-require-eq-ok (λ env db. first (λ d. d.id == id) db.deliveries) not_found env db
            found,
        Query.gets-require-eq-ok (λ env db. first (λ x. x.id == d.entry_id) db.entries) not_found
            env db written,
        Query.gets-require-eq-ok (λ env db. first (λ x. x.id == e.case_id) db.cases) not_found env
            db owned,
      )

pub IsContext-delivery_context :
    (id : Uuid) (env : Env) (db : Db) (ctx : Context)
    → IsContext id ctx db
    → delivery_context id env db ≡ ok ctx
unfolding delivery_context delivery_by_id entry_of case_of Query.◌>>=◌
IsContext-delivery_context id env db ctx (d, e, c) =
    Query.>>=-ok (delivery_by_id id)
      (λ x. Query.◌>>=◌ (entry_of x) (λ entry.
        Query.◌>>=◌ (case_of entry)
          (λ case. Query.pure (record { delivery = x; entry = entry; case = case }))))
      env db
      (Query.gets-require-ok (λ env db. first (λ x. x.id == id) db.deliveries) not_found env db d)
    ∙ Query.>>=-ok (entry_of ctx.delivery)
        (λ x.
          Query.◌>>=◌ (case_of x)
            (λ case. Query.pure (record { delivery = ctx.delivery; entry = x; case = case })))
        env db
        (Query.gets-require-ok (λ env db. first (λ x. x.id == ctx.delivery.entry_id) db.entries)
          not_found env db e)
    ∙ Query.>>=-ok (case_of ctx.entry)
        (λ x. Query.pure (record { delivery = ctx.delivery; entry = ctx.entry; case = x })) env db
        (Query.gets-require-ok (λ env db. first (λ x. x.id == ctx.entry.case_id) db.cases) not_found
          env db c)

pub delivery_item-IsItem :
    (id item_id : Uuid) (env : Env) (db : Db) (item : DeliveryItem)
    → delivery_item id item_id env db ≡ ok item
    → IsItem item_id id item db
unfolding delivery_item
delivery_item-IsItem id item_id env db item h =
    Query.gets-require-eq-ok
      (λ env db. first (λ i. (i.id == item_id) && (i.delivery_id == id)) db.items) not_found env db
      h

pub IsItem-delivery_item :
    (id item_id : Uuid) (env : Env) (db : Db) (item : DeliveryItem)
    → IsItem item_id id item db
    → delivery_item id item_id env db ≡ ok item
unfolding delivery_item Query.◌>>=◌ require
IsItem-delivery_item id item_id env db item h = rw h refl

pub accepted :
    (delivery : Delivery) (token : Uuid) (env : Env) (db : Db)
    → (delivery.status == DeliveryStatus.sent) || option_beq delivery.lock_token (some token) ≡ true
    → assert_delivery_lease delivery token env db ≡ ok tt
unfolding assert_delivery_lease ensure
accepted delivery token env db h = rw h refl

pub put_item-IsItem :
    (item_id delivery_id : Uuid) (item item' : DeliveryItem) (db : Db)
    → item'.id ≡ item.id
    → item'.delivery_id ≡ item.delivery_id
    → IsItem item_id delivery_id item db
    → first
        (λ i. (i.id == item_id) && (i.delivery_id == delivery_id))
        (update (λ i. i.id == item.id) (λ _. item') db.items)
      ≡ some item'
put_item-IsItem item_id delivery_id item item' db e e' found =
    let own =
      first-matches (λ i. (i.id == item_id) && (i.delivery_id == delivery_id)) db.items found in
    first-overwrite (λ i. (i.id == item_id) && (i.delivery_id == delivery_id))
      (λ i. i.id == item.id) item' db.items (λ z t. ground arith) (rw e (rw e' own)) found
