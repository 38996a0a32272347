-- ===== src/Numbering.antt =====
-- src/kefu/case_desk/numbering.py: the number of an issue, MMDDNN, from one counter for each day in
-- Shanghai. `next_bug_number` has a statement for SQLite and PostgreSQL and, for other databases,
-- a row lock; the unhandled failures of the database have no model.
pub mod Decimal
pub mod Counter
use message_router.Prelude.{
  ℕ, ◌+◌, Bool, true, false, Option, none, some, List, [], ◌∷◌, ◌++◌, ◌==◌, Text, text_eq, first,
  update, if◌then◌else◌,
}
use message_router.Models.{Moment, BugDailySequence}
use message_router.Session.{Db, LocalDay, runtime_error}
use message_router.Session.Query
use message_router.Session.Query.{gets, require}
use message_router.Session.Tx.{Tx, query, modify, pure, ◌>>=◌, ◌>>◌}
use message_router.Numbering.Decimal.{two_digits}

-- The row of a day.
unfoldable pub sequence_of : Text → Db → Option BugDailySequence
sequence_of key db = first (λ r. r.date_key == key) db.bug_sequences

abbrev pub put_sequence : BugDailySequence → Db → Db
put_sequence row db = record db { bug_sequences = db.bug_sequences ++ row ∷ [] }

abbrev pub is_none {ℓ} : {A : Type ℓ} → Option A → Bool
is_none none = true
is_none (some a) = false

-- `INSERT ... ON CONFLICT DO NOTHING`
unfoldable pub insert_if_absent : Text → Db → Db
insert_if_absent key db =
    if is_none (sequence_of key db)
    then put_sequence (record { date_key = key; last_sequence = 0 }) db
    else db

-- `UPDATE ... SET last_sequence = last_sequence + 1`
unfoldable pub increment : Text → Db → Db
increment key db = record db {
  bug_sequences =
      update (λ r. r.date_key == key) (λ r. record r { last_sequence = r.last_sequence + 1 })
        db.bug_sequences;
}

-- `f"{local_created_at:%m%d}{sequence:02d}"`
unfoldable pub format_bug_number : LocalDay → ℕ → Text
format_bug_number local sequence =
    two_digits local.month ++ two_digits local.day ++ two_digits sequence

-- The counter after an increment that returned a row.
unfoldable pub next_sequence : Text → Tx ℕ
next_sequence key = do
  modify (insert_if_absent key)
  modify (increment key)
  found ← query (gets (λ env db. sequence_of key db))
  row ← query (require found runtime_error)
  pure row.last_sequence

unfoldable pub next_bug_number : Moment → Tx Text
next_bug_number created_at = do
  local ← query (gets (λ env db. env.shanghai created_at))
  sequence ← next_sequence local.date_key
  pure (format_bug_number local sequence)

-- `_next_bug_number_with_row_lock`, where no other session creates the day's row in between
unfoldable pub locked_sequence : Text → Option BugDailySequence → Tx ℕ
locked_sequence key none = do
  modify (put_sequence (record { date_key = key; last_sequence = 1 }))
  pure 1
locked_sequence key (some row) = do modify (increment key); pure (row.last_sequence + 1)

unfoldable pub next_bug_number_with_row_lock : Moment → Tx Text
unfolding locked_sequence
next_bug_number_with_row_lock created_at = do
  local ← query (gets (λ env db. env.shanghai created_at))
  found ← query (gets (λ env db. sequence_of local.date_key db))
  sequence ← locked_sequence local.date_key found
  pure (format_bug_number local sequence)
