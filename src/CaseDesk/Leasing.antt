-- ===== src/CaseDesk/Leasing.antt =====
-- `claim_pending_deliveries` of src/kefu/case_desk/service.py: a worker leases the bundles that are due.
-- Rows that the statement's order does not tell apart stay in the order of the table.
pub mod Rows
pub mod Exclusive
pub mod Total
use message_router.Prelude.{
  ℕ, ◌+◌, Bool, true, false, ◌&&◌, ◌||◌, Option, none, some, List, [], ◌∷◌, ◌==◌, nat_eq, leb, ltb,
  if◌then◌else◌, Text, first, select, take,
}
use message_router.Models.{
  Uuid, Moment, Case, CaseEntry, Delivery, DeliveryItem, DeliveryStatus, delivery_status_eq,
  DeliveryItemStatus, delivery_item_status_eq, DeliveryDestination, PartKind, Payload,
}
use message_router.Session.{Db, validation_error}
use message_router.Session.Query.{gets, ensure}
use message_router.Session.Tx.{Tx, query, modify, uuid4, pure, ◌>>=◌, ◌>>◌}
use message_router.CaseDesk.Outbox.{Context, put_delivery}

pub record DeliveryWorkItem : Type 0 where
  pub id : Uuid
  pub req_id : Uuid
  pub position : ℕ
  pub kind : PartKind
  pub payload : Payload
  pub status : DeliveryItemStatus

pub record DeliveryWork : Type 0 where
  pub id : Uuid
  pub lock_token : Uuid
  pub destination_type : DeliveryDestination
  pub destination_address : Text
  pub case_ref : Text
  pub entry_id : Uuid
  pub items : List DeliveryWorkItem

-- Nobody holds the delivery, or no longer.
abbrev pub is_free : Moment → Option Moment → Bool
is_free now none = true
is_free now (some locked_until) = ltb locked_until now

unfoldable pub is_due : Moment → Delivery → Bool
is_due now d =
    ((d.status == DeliveryStatus.pending) && leb d.next_attempt_at now)
    && is_free now d.locked_until

-- The joins: a delivery with its entry and its issue.
abbrev pub join_case : Delivery → CaseEntry → Option Case → List Context → List Context
join_case d e none rest = rest
join_case d e (some c) rest = record { delivery = d; entry = e; case = c } ∷ rest

abbrev pub join_entry : Db → Delivery → Option CaseEntry → List Context → List Context
join_entry db d none rest = rest
join_entry db d (some e) rest = join_case d e (first (λ c. c.id == e.case_id) db.cases) rest

unfoldable pub joined : Db → List Delivery → List Context
joined db [] = []
joined db (d ∷ ds) = join_entry db d (first (λ e. e.id == d.entry_id) db.entries) (joined db ds)

-- A stable sort: `ORDER BY`.
unfoldable pub insert_by {ℓ} : {A : Type ℓ} → (A → A → Bool) → A → List A → List A
insert_by le x [] = x ∷ []
insert_by le x (y ∷ ys) = let rest = insert_by le x ys in if le x y then x ∷ y ∷ ys else y ∷ rest

unfoldable pub sort_by {ℓ} : {A : Type ℓ} → (A → A → Bool) → List A → List A
unfolding insert_by
sort_by le [] = []
sort_by le (x ∷ xs) = insert_by le x (sort_by le xs)

abbrev pub is_earlier : Context → Context → Bool
is_earlier a b =
    ltb a.delivery.next_attempt_at b.delivery.next_attempt_at
    || ((a.delivery.next_attempt_at == b.delivery.next_attempt_at)
        && leb a.delivery.created_at b.delivery.created_at)

-- The rows of the statement, before their limit.
unfoldable pub due_rows : Moment → Db → List Context
unfolding joined sort_by is_due
due_rows now db = sort_by is_earlier (joined db (select (is_due now) db.deliveries))

abbrev pub work_item : DeliveryItem → DeliveryWorkItem
work_item i = record {
  id = i.id;
  req_id = i.req_id;
  position = i.position;
  kind = i.kind;
  payload = i.payload;
  status = i.status;
}

unfoldable pub work_items : List DeliveryItem → List DeliveryWorkItem
work_items [] = []
work_items (i ∷ is) = work_item i ∷ work_items is

unfoldable pub pending_items : Uuid → Db → List DeliveryItem
unfolding sort_by
pending_items delivery_id db =
    sort_by (λ i j. leb i.position j.position)
      (select (λ i. (i.delivery_id == delivery_id) && (i.status == DeliveryItemStatus.pending))
        db.items)

abbrev pub leased_until : Moment → Uuid → Delivery → Delivery
leased_until until token d = record d { lock_token = some token; locked_until = some until }

unfoldable pub claim_row : Moment → Context → Tx DeliveryWork
unfolding work_items pending_items
claim_row until row = do
  token ← uuid4
  modify (put_delivery (leased_until until token row.delivery))
  items ← query (gets (λ env db. pending_items row.delivery.id db))
  pure (record {
    id = row.delivery.id;
    lock_token = token;
    destination_type = row.delivery.destination_type;
    destination_address = row.delivery.destination_address;
    case_ref = row.case.case_ref;
    entry_id = row.entry.id;
    items = work_items items;
  })

unfoldable pub claim_rows : Moment → List Context → Tx (List DeliveryWork)
unfolding claim_row
claim_rows until [] = pure []
claim_rows until (row ∷ rows) = do
  work ← claim_row until row
  rest ← claim_rows until rows
  pure (work ∷ rest)

unfoldable pub claim_pending_deliveries : ℕ → Moment → Tx (List DeliveryWork)
unfolding due_rows claim_rows
claim_pending_deliveries limit lease = do
  query (ensure (leb 1 limit) validation_error)
  now ← query (gets (λ env db. env.now))
  rows ← query (gets (λ env db. due_rows now db))
  claim_rows (now + lease) (take limit rows)
