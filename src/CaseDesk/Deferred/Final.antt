-- ===== src/CaseDesk/Deferred/Final.antt =====
-- A passive reply of src/kefu/case_desk/service.py is completed or taken back once.
use message_router.Prelude.{
  In, All-weaken, ℕ, ◌≡◌, refl, subst, ap, Bool, true, false, some, List, [], ◌∷◌, ◌==◌, nat_eq,
  select, first, All, Bool-cases, ◌⊎◌, inl, inr, arith,
}
use message_router.Models.{
  Uuid, Case, CaseEntry, Delivery, DeliveryItem, DeliveryStatus, delivery_status_eq,
  delivery_item_status_eq,
}
use message_router.Session.{Db, Env, Result, ok}
use message_router.Session.Query.{gets}
use message_router.Session.Tx.{Session, Tx, transact, commit, ◌>>=◌}
use message_router.CaseDesk.Outbox.{Context}
use message_router.CaseDesk.Leasing.{joined}
use message_router.CaseDesk.Leasing.Rows.{Row, All-joined, All-selected}
use message_router.CaseDesk.Deferred.{
  is_deferred_pending_delivery, items_of, is_among, restore_if, restore_each,
  restore_deferred_deliveries, recover_deferred_deliveries, complete_if, complete_each,
  complete_deferred_deliveries,
}
use message_router.CaseDesk.Deferred.Settled.{
  is_deferred, Pending, AllPending, Ends, restore_each-Ends, complete_each-Ends, deliveries_of,
}

restore_each-idle :
    (ds : List Delivery) (env : Env) (s : Session)
    → All (λ d. is_deferred s.db d ≡ false) ds
    → restore_each ds env s ≡ ok (0, s)
unfolding restore_each restore_if ◌>>=◌ gets
restore_each-idle [] env s h = refl
restore_each-idle (d ∷ ds) env s h = rw (h.0, restore_each-idle ds env s h.1) refl

complete_each-idle :
    (rows : List Context) (env : Env) (s : Session)
    → All (Row (λ d. is_deferred s.db d ≡ false)) rows
    → complete_each rows env s ≡ ok (0, s)
unfolding complete_each complete_if ◌>>=◌ gets
complete_each-idle [] env s h = refl
complete_each-idle (row ∷ rows) env s h = rw (h.0, complete_each-idle rows env s h.1) refl

-- The rows that another loop selects are no placeholders either.
settled_rows :
    (p q : Delivery → Bool) (db : Db)
    → ((d : Delivery) → q d ≡ true → is_deferred db d ≡ true → p d ≡ true)
    → AllPending p db []
    → All (λ d. is_deferred db d ≡ false) (select q db.deliveries)
settled_rows p q db k h =
    All-weaken (λ d. Pending p db [] d × (q d ≡ true)) (λ d. is_deferred db d ≡ false)
      (select q db.deliveries) (λ d w. settled d w.0 w.1)
      (All-selected (Pending p db []) q db.deliveries h)
  where
    settled : (d : Delivery) → Pending p db [] d → q d ≡ true → is_deferred db d ≡ false
    settled d (inl (inr n)) t = n
    settled d (inr none_left) t = absurd none_left
    settled d (inl (inl f)) t = elim (Bool-cases (is_deferred db d)) [
      | inl b ↦ let c = k d t b in absurd (ground arith)
      | inr n ↦ n
    ]

-- The tables hold no placeholder among `ids`: nothing is left to complete or to restore.
abbrev Idle : List Uuid → Env → Db → Type 0
Idle ids env db =
    (transact (complete_deferred_deliveries ids) env db ≡ (ok 0, db))
    × (transact (restore_deferred_deliveries ids) env db ≡ (ok 0, db))

settled-Idle :
    (p : Delivery → Bool) (ids : List Uuid) (env : Env) (db : Db)
    → ((d : Delivery) → is_among ids d ≡ true → is_deferred db d ≡ true → p d ≡ true)
    → AllPending p db []
    → Idle ids env db
unfolding transact complete_deferred_deliveries restore_deferred_deliveries ◌>>=◌ gets
settled-Idle p [] env db k h = (refl, refl)
settled-Idle p (id ∷ ids) env db k h =
    let start : Session = record { db = db; drawn = 0; chosen = 0 } in
    let ds = select (is_among (id ∷ ids)) db.deliveries in
    let settled = settled_rows p (is_among (id ∷ ids)) db k h in
    (
      ap (λ r. commit r db)
          (complete_each-idle (joined db ds) env start
            (All-joined (λ d. is_deferred db d ≡ false) db ds settled)),
      ap (λ r. commit r db) (restore_each-idle ds env start settled),
    )

-- The foreign keys of a delivery: its entry and its issue are there.
abbrev pub IsLinked : Db → Delivery → Type 0
IsLinked db d =
    (e : CaseEntry) × (c : Case) × (first (λ x. x.id == d.entry_id) db.entries ≡ some e)
    × (first (λ x. x.id == e.case_id) db.cases ≡ some c)

abbrev Selected : (Delivery → Bool) → List Delivery → Delivery → Type 0
Selected p ds d = (p d ≡ false) ⊎ In d ds

later-Selected :
    (p : Delivery → Bool) (x : Delivery) (ds xs : List Delivery)
    → All (Selected p ds) xs
    → All (Selected p (x ∷ ds)) xs
later-Selected p x ds xs h =
    All-weaken (Selected p ds) (Selected p (x ∷ ds)) xs
      (λ d w. elim w [ inl n ↦ inl n | inr i ↦ inr (inr i) ]) h

select-Selected : (p : Delivery → Bool) (xs : List Delivery) → All (Selected p (select p xs)) xs
unfolding select
select-Selected p [] = tt
select-Selected p (x ∷ xs) = elim (Bool-cases (p x)) [
  | inl t ↦
      let e : x ∷ select p xs ≡ select p (x ∷ xs) = rw t refl in
      subst (λ ds. All (Selected p ds) (x ∷ xs)) e
        (inr (inl refl), later-Selected p x (select p xs) xs (select-Selected p xs))
  | inr n ↦
      let e : select p xs ≡ select p (x ∷ xs) = rw n refl in
      subst (λ ds. All (Selected p ds) (x ∷ xs)) e (inl n, select-Selected p xs)
]

joined-Selected :
    (db : Db) (p : Delivery → Bool) (xs : List Delivery)
    → All (IsLinked db) xs
    → All (Selected p (deliveries_of (joined db (select p xs)))) xs
unfolding select joined
joined-Selected db p [] h = tt
joined-Selected db p (x ∷ xs) ((e, c, e_there, c_there), h) = elim (Bool-cases (p x)) [
  | inl t ↦
      let rest = deliveries_of (joined db (select p xs)) in
      let q : x ∷ rest ≡ deliveries_of (joined db (select p (x ∷ xs))) =
        rw t (rw e_there (rw c_there refl)) in
      subst (λ ds. All (Selected p ds) (x ∷ xs)) q
        (inr (inl refl), later-Selected p x rest xs (joined-Selected db p xs h))
  | inr n ↦
      let q : deliveries_of (joined db (select p xs))
          ≡ deliveries_of (joined db (select p (x ∷ xs))) =
        rw n refl in
      subst (λ ds. All (Selected p ds) (x ∷ xs)) q (inl n, joined-Selected db p xs h)
]

Selected-AllPending :
    (p : Delivery → Bool) (db : Db) (ds xs : List Delivery)
    → All (Selected p ds) xs
    → All (Pending p db ds) xs
Selected-AllPending p db ds xs h =
    All-weaken (Selected p ds) (Pending p db ds) xs
      (λ d w. elim w [ inl n ↦ inl (inl n) | inr i ↦ inr i ]) h

-- A transaction that returned, and what its tables leave to do.
abbrev pub Finalizes : List Uuid → Env → Result ℕ × Db → Type 0
Finalizes ids env r = (n : ℕ) × (r.0 ≡ ok n) × Idle ids env r.1

ended :
    (p : Delivery → Bool) (ids : List Uuid) (m : Tx ℕ) (env env' : Env) (db : Db)
    → ((db : Db) (d : Delivery) → is_among ids d ≡ true → is_deferred db d ≡ true → p d ≡ true)
    → Ends p (m env) (record { db = db; drawn = 0; chosen = 0 })
    → Finalizes ids env' (transact m env db)
unfolding transact
ended p ids m env env' db k (n, t, e, h) = rw e (n, refl, settled-Idle p ids env' t.db (k t.db) h)

-- Where every delivery has its entry and its issue, a callback that completes the passive replies
-- `ids` returns, and so does a worker that takes them back; after either of them, and at any later
-- time, completing `ids` and taking `ids` back both count 0 and leave the tables as they are. So a
-- reply that went out with a callback is not pushed again, and one that was taken back is not
-- counted as replied.
pub deferred-once :
    (ids : List Uuid) (env env' : Env) (db : Db)
    → All (IsLinked db) db.deliveries
    → Finalizes ids env' (transact (complete_deferred_deliveries ids) env db)
      × Finalizes ids env' (transact (restore_deferred_deliveries ids) env db)
unfolding transact complete_deferred_deliveries restore_deferred_deliveries ◌>>=◌ gets
deferred-once [] env env' db linked = ((0, refl, (refl, refl)), (0, refl, (refl, refl)))
deferred-once (id ∷ ids) env env' db linked =
    let p = is_among (id ∷ ids) in
    let start : Session = record { db = db; drawn = 0; chosen = 0 } in
    let rows = joined db (select p db.deliveries) in
    (
      ended p (id ∷ ids) (complete_deferred_deliveries (id ∷ ids)) env env' db (λ _ _ t _. t)
          (complete_each-Ends p rows env start (
            Selected-AllPending p db (deliveries_of rows) db.deliveries
              (joined-Selected db p db.deliveries linked))),
      ended p (id ∷ ids) (restore_deferred_deliveries (id ∷ ids)) env env' db (λ _ _ t _. t)
          (restore_each-Ends p (select p db.deliveries) env start (
            Selected-AllPending p db (select p db.deliveries) db.deliveries
              (select-Selected p db.deliveries))),
    )

sent-of_items :
    (d : Delivery) (is : List DeliveryItem)
    → is_deferred_pending_delivery d is ≡ true
    → (d.status == DeliveryStatus.sent) ≡ true
unfolding is_deferred_pending_delivery
sent-of_items d [] h = absurd (cc)
sent-of_items d (i ∷ is) h = ground arith

-- A worker that starts recovers: the recovery returns, whatever the tables, and leaves no passive
-- reply behind; at any later time, completing or taking back any deliveries counts 0 and leaves the
-- tables as they are.
pub recover_deferred_deliveries-Finalizes :
    (ids : List Uuid) (env env' : Env) (db : Db)
    → Finalizes ids env' (transact recover_deferred_deliveries env db)
unfolding recover_deferred_deliveries ◌>>=◌ gets
recover_deferred_deliveries-Finalizes ids env env' db =
    let p = λ (d : Delivery). d.status == DeliveryStatus.sent in
    ended p ids recover_deferred_deliveries env env' db
      (λ db d _ t. sent-of_items d (items_of d.id db) t)
      (restore_each-Ends p (select p db.deliveries) env (record { db = db; drawn = 0; chosen = 0 })
        (Selected-AllPending p db (select p db.deliveries) db.deliveries
          (select-Selected p db.deliveries)))
