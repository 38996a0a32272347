-- ===== src/CaseDesk/Outbox/Failures.antt =====
-- Failed deliveries of src/kefu/case_desk/service.py: what a failure report writes, and that it uses
-- up the worker's lease.
use message_router.Prelude.{
  zero, suc, ℕ, ◌+◌, ◌≤◌, ◌≡◌, ◌≢◌, ◌⊎◌, refl, ◌∙◌, ap, sym, subst, Bool, true, false, ◌||◌, none,
  ◌==◌, nat_eq, first-matches, first-overwrite, update, leb, Text, Bool-cases, inl, inr, arith,
}
use message_router.Models.{
  Uuid, Moment, Delivery, DeliveryStatus, delivery_status_eq, DeliveryItem, DeliveryItemStatus,
  delivery_item_status_eq, PlatformResult,
}
use message_router.Session.{Db, Env, ok, err, ok-injective, conflict}
use message_router.Session.Query.{gets}
use message_router.Session.Tx.{Session, pure, ◌>>=◌, query_then-eq-ok, transact-committed}
use message_router.CaseDesk.Commands.{
  CommandResult, system_actor, delivery_item_succeeded, delivery_item_failed,
}
use message_router.CaseDesk.Outbox.{
  Context, put_delivery, put_item, failed_attempt, failed_item, retry_limit, retry_delay,
  safe_error, fail_item,
}
use message_router.CaseDesk.Outbox
use message_router.CaseDesk.Outbox.Leases.{report-lost_lease}
use message_router.CaseDesk.Outbox.Rows.{
  start, IsContext, IsItem, delivery_context-IsContext, IsContext-delivery_context,
  delivery_item-IsItem, put_item-IsItem,
}
use message_router.CaseDesk.Execute.{handler, execute}

-- One more attempt of a delivery: the third fails for good, the delivery and the item, and the first
-- two have it wait for 5 and for 30 seconds.
abbrev pub IsCounted : Moment → Delivery → DeliveryItem → Delivery → DeliveryItem → Type 0
IsCounted now old item d i =
    (d.attempts ≡ old.attempts + 1)
    × (d.lock_token ≡ none)
    × (d.locked_until ≡ none)
    × (((3 ≤ d.attempts)
          × (d.status ≡ DeliveryStatus.failed)
          × (i.status ≡ DeliveryItemStatus.failed))
        ⊎ ((d.status ≡ old.status)
            × (i.status ≡ item.status)
            × (((d.attempts ≡ 1) × (d.next_attempt_at ≡ now + 5_000_000))
                ⊎ ((d.attempts ≡ 2) × (d.next_attempt_at ≡ now + 30_000_000)))))

waits :
    (now attempts : ℕ)
    → leb retry_limit (attempts + 1) ≡ false
    → ((attempts + 1 ≡ 1) × (now + retry_delay (attempts + 1) ≡ now + 5_000_000))
      ⊎ ((attempts + 1 ≡ 2) × (now + retry_delay (attempts + 1) ≡ now + 30_000_000))
unfolding retry_delay
waits now zero h = inl (refl, refl)
waits now (suc zero) h = inr (refl, refl)
waits now (suc (suc n)) h = absurd (ground arith)

failed_attempt-IsCounted :
    (now : Moment) (d : Delivery) (item : DeliveryItem) (error : Text)
    → IsCounted now d item (failed_attempt d error now) (failed_item d item error)
unfolding failed_attempt failed_item
failed_attempt-IsCounted now d item error = elim (Bool-cases (leb retry_limit (d.attempts + 1))) [
  | inl t ↦ rw t (refl, refl, refl, inl (ground arith, refl, refl))
  | inr f ↦ rw f (refl, refl, refl, inr (refl, refl, waits now d.attempts f))
]

-- Every report is refused with `Conflict`, and changes nothing.
abbrev pub IsRefused : Uuid → Uuid → Uuid → PlatformResult → Text → Env → Db → Type 0
IsRefused id item_id token outcome error env db =
    (execute (delivery_item_succeeded id item_id token outcome) system_actor env db
      ≡ (err conflict, db))
    × (execute (delivery_item_failed id item_id token error) system_actor env db
        ≡ (err conflict, db))

-- The attempt is counted in the rows of the delivery and of the item, and in no other.
abbrev pub Counted : Uuid → Uuid → Moment → Context → DeliveryItem → Db → Db → Delivery → Type 0
Counted id item_id now ctx item db db' d =
    (i : DeliveryItem) × (db' ≡ record db {
      deliveries = update (λ x. x.id == ctx.delivery.id) (λ _. d) db.deliveries;
      items = update (λ x. x.id == item.id) (λ _. i) db.items;
    })
    × IsContext id (record ctx { delivery = d }) db'
    × IsItem item_id d.id i db'
    × IsCounted now ctx.delivery item d i

abbrev Outcome : Uuid → Uuid → Moment → Context → DeliveryItem → Db → Db → CommandResult → Type 0
Outcome id item_id now ctx item db db' r =
    ((r.idempotent ≡ true)
      × (db' ≡ db)
      × ((item.status ≡ DeliveryItemStatus.sent) ⊎ (ctx.delivery.status ≡ DeliveryStatus.failed)))
    ⊎ ((r.idempotent ≡ false) × ((d : Delivery) × Counted id item_id now ctx item db db' d))

either_status :
    (a : DeliveryItemStatus) (b : DeliveryStatus)
    → (a == DeliveryItemStatus.sent) || (b == DeliveryStatus.failed) ≡ true
    → (a ≡ DeliveryItemStatus.sent) ⊎ (b ≡ DeliveryStatus.failed)
either_status a b h = elim (Bool-cases (a == DeliveryItemStatus.sent)) [
  | inl t ↦ inl ((delivery_item_status_eq.equal_iff a DeliveryItemStatus.sent).0 t)
  | inr n ↦ inr ((delivery_status_eq.equal_iff b DeliveryStatus.failed).0 (rw n at h))
]

fail_item-Outcome :
    (idle : Bool) (id item_id : Uuid) (ctx : Context) (item : DeliveryItem) (error : Text)
    (env : Env) (s s' : Session) (r : CommandResult)
    → (item.status == DeliveryItemStatus.sent) || (ctx.delivery.status == DeliveryStatus.failed)
      ≡ idle
    → IsContext id ctx s.db
    → IsItem item_id ctx.delivery.id item s.db
    → fail_item idle ctx item error env s ≡ ok (r, s')
    → Outcome id item_id env.now ctx item s.db s'.db r
unfolding fail_item put_delivery put_item ◌>>=◌ gets failed_attempt failed_item pure
fail_item-Outcome true id item_id ctx item error env s s' r e rows i h =
    let q = ok-injective h in
    inl (
      ap (λ p. p.0.idempotent) (sym q),
      ap (λ p. p.1.db) (sym q),
      either_status item.status ctx.delivery.status e,
    )
fail_item-Outcome false id item_id ctx item error env s s' r e (d, w, c) i h =
    let own = first-matches (λ x. x.id == id) s.db.deliveries d in
    let d' = failed_attempt ctx.delivery (safe_error error) env.now in
    let i' = failed_item ctx.delivery item (safe_error error) in
    subst (λ (p : CommandResult × Session). Outcome id item_id env.now ctx item s.db p.1.db p.0)
      (ok-injective h)
      (inr (
        refl,
        (
          d',
          (
            i',
            refl,
            (
              first-overwrite (λ x. x.id == id) (λ x. x.id == ctx.delivery.id) d' s.db.deliveries
                  (λ z t. ground arith) own d,
              w,
              c,
            ),
            put_item-IsItem item_id ctx.delivery.id item i' s.db refl refl i,
            failed_attempt-IsCounted env.now ctx.delivery item (safe_error error),
          ),
        ),
      ))

not_sent :
    (now : Moment) (old d : Delivery) (item i : DeliveryItem)
    → IsCounted now old item d i
    → (old.status == DeliveryStatus.sent) ≡ false
    → d.status ≢ DeliveryStatus.sent
not_sent now old d item i (_, _, _, inl (_, failed, _)) n e = cc
not_sent now old d item i (_, _, _, inr (same, _, _)) n e =
    let t = (delivery_status_eq.equal_iff old.status DeliveryStatus.sent).1 (sym same ∙ e) in cc

used_up :
    (id item_id token : Uuid) (outcome : PlatformResult) (error : Text) (env : Env) (now : Moment)
    (ctx : Context) (item : DeliveryItem) (db db' : Db) (d : Delivery)
    → Counted id item_id now ctx item db db' d
    → (ctx.delivery.status ≡ DeliveryStatus.sent) ⊎ IsRefused id item_id token outcome error env db'
used_up id item_id token outcome error env now ctx item db db' d (i, _, rows, _, counted) =
    elim (Bool-cases (ctx.delivery.status == DeliveryStatus.sent)) [
      | inl t ↦ inl ((delivery_status_eq.equal_iff ctx.delivery.status DeliveryStatus.sent).0 t)
      | inr n ↦
          let after : Context = record ctx { delivery = d } in
          inr (
            report-lost_lease id item_id token env db' after
              (IsContext-delivery_context id env db' after rows) outcome error
              (not_sent now ctx.delivery d item i counted n)
              (λ e. let none = counted.1 in absurd (cc)))
    ]

-- A failure report that returned found the rows of the delivery and the item. Either the item was sent
-- or the delivery had failed for good, and then the result is idempotent and the tables stay as they
-- were; or one more attempt is counted, in the rows of the two and in no other. The third attempt
-- fails both for good, and the first two leave their states and put the next attempt off by 5 and
-- by 30 seconds. The lease is used up: unless the delivery had been sent before, every further
-- report on it, whatever lease it names, is refused with `Conflict` and changes nothing.
pub report-failed :
    (id item_id token token' : Uuid) (outcome : PlatformResult) (error error' : Text)
    (env env' : Env) (db db' : Db) (r : CommandResult)
    → execute (delivery_item_failed id item_id token error) system_actor env db ≡ (ok r, db')
    → (ctx : Context) × (item : DeliveryItem) × IsContext id ctx db
      × IsItem item_id ctx.delivery.id item db
      × (((r.idempotent ≡ true)
            × (db' ≡ db)
            × ((item.status ≡ DeliveryItemStatus.sent)
                ⊎ (ctx.delivery.status ≡ DeliveryStatus.failed)))
          ⊎ ((r.idempotent ≡ false)
              × ((d : Delivery) × Counted id item_id env.now ctx item db db' d)
              × ((ctx.delivery.status ≡ DeliveryStatus.sent)
                  ⊎ IsRefused id item_id token' outcome error' env' db')))
unfolding execute handler Outbox.delivery_item_failed
report-failed id item_id token token' outcome error error' env env' db db' r h =
    let (s, h₀, left) = transact-committed _ env db db' h in
    let (ctx, found, h₁) = query_then-eq-ok _ _ env (start db) h₀ in
    let (_, leased, h₂) = query_then-eq-ok _ _ env (start db) h₁ in
    let (item, there, h₃) = query_then-eq-ok _ _ env (start db) h₂ in
    let rows = delivery_context-IsContext id env db ctx found in
    let i = delivery_item-IsItem ctx.delivery.id item_id env db item there in
    let written =
      subst (λ x. Outcome id item_id env.now ctx item db x r) left
        (fail_item-Outcome
          ((item.status == DeliveryItemStatus.sent)
            || (ctx.delivery.status == DeliveryStatus.failed))
          id item_id ctx item error env (start db) s r refl rows i h₃) in
    (
      ctx,
      item,
      rows,
      i,
      elim written [
        | inl idle ↦ inl idle
        | inr (fresh, (d, counted)) ↦ inr (
          fresh,
          (d, counted),
          used_up id item_id token' outcome error' env' env.now ctx item db db' d counted,
        )
      ],
    )
