-- ===== src/CaseDesk/Deferred/Settled.antt =====
-- What the loops over passive replies of src/kefu/case_desk/service.py leave behind.
use message_router.Prelude.{
  In, All-weaken, ℕ, ◌+◌, ◌≡◌, ◌≢◌, refl, ap, sym, ◌∙◌, Bool, false, Option, none, some, List, [],
  ◌∷◌, ◌==◌, nat_eq, any, all, select, update, first, All, Bool-cases, ◌⊎◌, inl, inr, arith,
}
use message_router.Models.{
  Uuid, Case, WaitingOn, LifecycleStatus, lifecycle_status_eq, Delivery, DeliveryItem,
  delivery_status_eq, delivery_item_status_eq,
}
use message_router.Session.{Db, Env, Result, ok}
use message_router.Session.Query
use message_router.Session.Query.{gets}
use message_router.Session.Tx.{Session, ◌>>=◌}
use message_router.CaseDesk.Common.{put_case, save_case}
use message_router.CaseDesk.Outbox.{
  Context, put_delivery, delivery_transition, transition, is_later_handoff, apply_transition,
}
use message_router.CaseDesk.Deferred.{
  is_deferred_pending_delivery, is_deferred_item, items_of, put_items, restored_delivery,
  restored_item, restore_deferred_delivery, restore_if, restore_each, completed_item,
  completed_delivery, complete_deferred_delivery, complete_if, complete_each, current_case,
  found_or,
}

-- The delivery is a passive placeholder, by the items of the tables.
abbrev pub is_deferred : Db → Delivery → Bool
is_deferred db d = is_deferred_pending_delivery d (items_of d.id db)

-- A row that the loop is not concerned with, that is no placeholder, or that is still to come.
abbrev pub Pending : (Delivery → Bool) → Db → List Delivery → Delivery → Type 0
Pending p db ds d = ((p d ≡ false) ⊎ (is_deferred db d ≡ false)) ⊎ In d ds

abbrev pub AllPending : (Delivery → Bool) → Db → List Delivery → Type 0
AllPending p db ds = All (Pending p db ds) db.deliveries

-- A row that is no placeholder is left as it is.
skip-AllPending :
    (p : Delivery → Bool) (db : Db) (d : Delivery) (ds : List Delivery)
    → is_deferred db d ≡ false
    → AllPending p db (d ∷ ds)
    → AllPending p db ds
skip-AllPending p db d ds n h =
    All-weaken (Pending p db (d ∷ ds)) (Pending p db ds) db.deliveries
      (λ x w. elim w [
        | inl done ↦ inl done
        | inr (inl same) ↦ inl (inr (rw same n))
        | inr (inr later) ↦ inr later
      ])
      h

-- The items of another delivery are not touched.
items_of-put_items :
    (id other : Uuid) (f : DeliveryItem → DeliveryItem) (is : List DeliveryItem)
    → id ≢ other
    → ((i : DeliveryItem) → (f i).delivery_id ≡ i.delivery_id)
    → select (λ i. i.delivery_id == id) (update (λ i. i.delivery_id == other) f is)
      ≡ select (λ i. i.delivery_id == id) is
unfolding select update
items_of-put_items id other f [] ne keep = refl
items_of-put_items id other f (i ∷ is) ne keep = elim (Bool-cases (i.delivery_id == other)) [
  | inl t ↦
      let n : (i.delivery_id == id) ≡ false = ground arith in
      rw t (rw (keep i) (rw n (items_of-put_items id other f is ne keep)))
  | inr n ↦ rw n (rw (items_of-put_items id other f is ne keep) refl)
]

-- What a loop writes for a placeholder: the delivery `after` and its items by `f`.
abbrev written : Delivery → (DeliveryItem → DeliveryItem) → Db → Db
written after f db = put_items after.id f (put_delivery after db)

write-AllPending :
    (p : Delivery → Bool) (db : Db) (d after : Delivery) (f : DeliveryItem → DeliveryItem)
    (ds : List Delivery)
    → after.id ≡ d.id
    → is_deferred (written after f db) after ≡ false
    → ((i : DeliveryItem) → (f i).delivery_id ≡ i.delivery_id)
    → AllPending p db (d ∷ ds)
    → AllPending p (written after f db) ds
unfolding put_items put_delivery items_of update
write-AllPending p db d after f ds same_id settled keep h = rows db.deliveries h
  where
    other :
        (x : Delivery)
        → x.id ≢ after.id
        → Pending p db (d ∷ ds) x
        → Pending p (written after f db) ds x
    other x ne w = elim w [
      | inl (inl n) ↦ inl (inl n)
      | inl (inr n) ↦ inl (inr (rw (items_of-put_items x.id after.id f db.items ne keep) n))
      | inr (inl same) ↦ absurd (ne (ap (λ (y : Delivery). y.id) same ∙ sym same_id))
      | inr (inr later) ↦ inr later
    ]

    rows :
        (xs : List Delivery)
        → All (Pending p db (d ∷ ds)) xs
        → All (Pending p (written after f db) ds) (update (λ x. x.id == after.id) (λ _. after) xs)
    rows [] h = tt
    rows (x ∷ xs) h = elim (Bool-cases (x.id == after.id)) [
      | inl t ↦ rw t (inl (inr settled), rows xs h.1)
      | inr n ↦ rw n (other x (λ e. ground arith) h.0, rows xs h.1)
    ]

restored-settled :
    (now : ℕ) (d : Delivery) (is : List DeliveryItem)
    → is_deferred_pending_delivery (restored_delivery now d) is ≡ false
unfolding is_deferred_pending_delivery
restored-settled now d [] = refl
restored-settled now d (i ∷ is) = refl

-- The items of a delivery, after each of them was given the mode of a completed reply.
completed-settled :
    (d : Delivery) (is : List DeliveryItem)
    → is_deferred_pending_delivery d (
        select (λ i. i.delivery_id == d.id) (update (λ i. i.delivery_id == d.id) completed_item is))
      ≡ false
unfolding is_deferred_pending_delivery is_deferred_item select update all
completed-settled d [] = refl
completed-settled d (i ∷ is) = elim (Bool-cases (i.delivery_id == d.id)) [
  | inl t ↦ rw t (rw t (ground arith))
  | inr n ↦ rw n (rw n (completed-settled d is))
]

-- A loop over `ds` returns, and leaves none of its rows a placeholder.
abbrev pub Ends :
    {A : Type 0} → (Delivery → Bool) → (Session → Result (A × Session)) → Session → Type 0
Ends {A} p run s = (a : A) × (t : Session) × (run s ≡ ok (a, t)) × AllPending p t.db []

pub restore_each-Ends :
    (p : Delivery → Bool) (ds : List Delivery) (env : Env) (s : Session)
    → AllPending p s.db ds
    → Ends p (restore_each ds env) s
unfolding restore_each restore_if restore_deferred_delivery ◌>>=◌ gets
restore_each-Ends p [] env s h = (0, s, refl, h)
restore_each-Ends p (d ∷ ds) env s h = elim (Bool-cases (is_deferred s.db d)) [
  | inl t ↦
      let after = restored_delivery env.now d in
      let db = put_items d.id restored_item (put_delivery after s.db) in
      let (n, t', e, k) =
        restore_each-Ends p ds env (record s { db = db })
          (write-AllPending p s.db d after restored_item ds refl
            (restored-settled env.now d (items_of d.id db)) (λ i. refl) h) in
      (1 + n, t', rw (t, e) refl, k)
  | inr n ↦
      let (m, t', e, k) = restore_each-Ends p ds env s (skip-AllPending p s.db d ds n h) in
      (0 + m, t', rw (n, e) refl, k)
]

abbrev pub deliveries_of : List Context → List Delivery
deliveries_of [] = []
deliveries_of (row ∷ rows) = row.delivery ∷ deliveries_of rows

-- An issue's columns are no part of what makes a delivery a placeholder.
apply_transition-returns :
    (side : Option WaitingOn) (case : Case) (env : Env) (s : Session)
    → (c : Case) × (t : Session) × (apply_transition side case env s ≡ ok (c, t))
      × (t.db.deliveries ≡ s.db.deliveries)
      × (t.db.items ≡ s.db.items)
unfolding apply_transition save_case put_case ◌>>=◌
apply_transition-returns none case env s = (case, s, refl, refl, refl)
apply_transition-returns (some side) case env s = (_, _, refl, refl, refl)

complete_deferred_delivery-returns :
    (row : Context) (env : Env) (s : Session)
    → (t : Session) × (complete_deferred_delivery row env s ≡ ok (1, t))
      × (t.db.deliveries
          ≡ (written (completed_delivery row.delivery) completed_item s.db).deliveries)
      × (t.db.items ≡ (written (completed_delivery row.delivery) completed_item s.db).items)
unfolding complete_deferred_delivery current_case delivery_transition put_items put_delivery ◌>>=◌
    Query.◌>>=◌
complete_deferred_delivery-returns row env s =
    let db =
      put_delivery (completed_delivery row.delivery)
        (put_items row.delivery.id completed_item s.db) in
    let case = found_or row.case (first (λ c. c.id == row.case.id) db.cases) in
    let side =
      transition (case.lifecycle_status == LifecycleStatus.opened)
        (any (is_later_handoff case row.entry) db.entries) row.delivery.waiting_on_after_delivery in
    let (c, t, e, p, q) = apply_transition-returns side case env (record s { db = db }) in
    (t, rw e refl, p, q)

same-AllPending :
    (p : Delivery → Bool) (db db' : Db) (ds : List Delivery)
    → db'.deliveries ≡ db.deliveries
    → db'.items ≡ db.items
    → AllPending p db ds
    → AllPending p db' ds
unfolding items_of
same-AllPending p db db' ds d i h = rw d (rw i h)

pub complete_each-Ends :
    (p : Delivery → Bool) (rows : List Context) (env : Env) (s : Session)
    → AllPending p s.db (deliveries_of rows)
    → Ends p (complete_each rows env) s
unfolding complete_each complete_if ◌>>=◌ gets items_of put_items put_delivery
complete_each-Ends p [] env s h = (0, s, refl, h)
complete_each-Ends p (row ∷ rows) env s h = elim (Bool-cases (is_deferred s.db row.delivery)) [
  | inl b ↦
      let after = completed_delivery row.delivery in
      let db = written after completed_item s.db in
      let (t, e₁, ds, is) = complete_deferred_delivery-returns row env s in
      let there : AllPending p db (deliveries_of rows) =
        write-AllPending p s.db row.delivery after completed_item (deliveries_of rows) refl
          (completed-settled after s.db.items) (λ i. refl) h in
      let (n, t', e₂, k) =
        complete_each-Ends p rows env t
          (same-AllPending p db t.db (deliveries_of rows) ds is there) in
      (1 + n, t', rw (b, e₁, e₂) refl, k)
  | inr n ↦
      let (m, t', e, k) =
        complete_each-Ends p rows env s
          (skip-AllPending p s.db row.delivery (deliveries_of rows) n h) in
      (0 + m, t', rw (n, e) refl, k)
]
