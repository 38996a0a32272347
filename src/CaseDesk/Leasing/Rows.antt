-- ===== src/CaseDesk/Leasing/Rows.antt =====
-- The rows that `claim_pending_deliveries` of src/kefu/case_desk/service.py selects.
use message_router.Prelude.{
  ℕ, zero, suc, ◌≡◌, Bool, true, Option, none, some, List, [], ◌∷◌, ◌==◌, nat_eq, first, select,
  take, All, Bool-cases, inl, inr,
}
use message_router.Models.{Moment, Case, CaseEntry, Delivery}
use message_router.Session.{Db}
use message_router.CaseDesk.Outbox.{Context}
use message_router.CaseDesk.Leasing.{
  is_due, join_case, join_entry, joined, insert_by, sort_by, is_earlier, due_rows,
}

pub All-take {ℓ} :
    {A : Type ℓ} (P : A → Type 0) (n : ℕ) (xs : List A) → All P xs → All P (take n xs)
All-take P zero xs h = tt
All-take P (suc n) [] h = tt
All-take P (suc n) (x ∷ xs) h = (h.0, All-take P n xs h.1)

pub All-insert_by {ℓ} :
    {A : Type ℓ} (P : A → Type 0) (le : A → A → Bool) (x : A) (xs : List A)
    → P x
    → All P xs
    → All P (insert_by le x xs)
unfolding insert_by
All-insert_by P le x [] p h = (p, tt)
All-insert_by P le x (y ∷ ys) p h = elim (Bool-cases (le x y)) [
  | inl t ↦ rw t (p, h)
  | inr f ↦ rw f (h.0, All-insert_by P le x ys p h.1)
]

pub All-sort_by {ℓ} :
    {A : Type ℓ} (P : A → Type 0) (le : A → A → Bool) (xs : List A)
    → All P xs
    → All P (sort_by le xs)
unfolding sort_by
All-sort_by P le [] h = tt
All-sort_by P le (x ∷ xs) h = All-insert_by P le x (sort_by le xs) h.0 (All-sort_by P le xs h.1)

-- What holds of every delivery of the table that is due, holds of every row of the statement.
abbrev pub Row : (Delivery → Type 0) → Context → Type 0
Row P row = P row.delivery

case_found :
    (P : Delivery → Type 0) (d : Delivery) (e : CaseEntry) (c : Option Case) (rest : List Context)
    → P d
    → All (Row P) rest
    → All (Row P) (join_case d e c rest)
case_found P d e none rest p h = h
case_found P d e (some c) rest p h = (p, h)

entry_found :
    (P : Delivery → Type 0) (db : Db) (d : Delivery) (e : Option CaseEntry) (rest : List Context)
    → P d
    → All (Row P) rest
    → All (Row P) (join_entry db d e rest)
entry_found P db d none rest p h = h
entry_found P db d (some e) rest p h =
    case_found P d e (first (λ c. c.id == e.case_id) db.cases) rest p h

pub All-joined :
    (P : Delivery → Type 0) (db : Db) (ds : List Delivery) → All P ds → All (Row P) (joined db ds)
unfolding joined
All-joined P db [] h = tt
All-joined P db (d ∷ ds) h =
    entry_found P db d (first (λ e. e.id == d.entry_id) db.entries) (joined db ds) h.0
      (All-joined P db ds h.1)

pub All-selected {ℓ} :
    {A : Type ℓ} (P : A → Type 0) (p : A → Bool) (xs : List A)
    → All P xs
    → All (λ x. P x × (p x ≡ true)) (select p xs)
unfolding select
All-selected P p [] h = tt
All-selected P p (x ∷ xs) h = elim (Bool-cases (p x)) [
  | inl t ↦ rw t ((h.0, t), All-selected P p xs h.1)
  | inr n ↦ rw n (All-selected P p xs h.1)
]

pub All-due_rows :
    (P : Delivery → Type 0) (now : Moment) (db : Db)
    → All P db.deliveries
    → All (Row (λ d. P d × (is_due now d ≡ true))) (due_rows now db)
unfolding due_rows
All-due_rows P now db h =
    All-sort_by (Row (λ d. P d × (is_due now d ≡ true))) is_earlier
      (joined db (select (is_due now) db.deliveries))
      (All-joined (λ d. P d × (is_due now d ≡ true)) db (select (is_due now) db.deliveries)
        (All-selected P (is_due now) db.deliveries h))
