-- ===== src/Numbering/Counter.antt =====
-- The counters behind src/kefu/case_desk/numbering.py.
use message_router.Prelude.{
  ℕ, ◌+◌, ◌≡◌, ◌≢◌, refl, ◌∙◌, subst, ap, sym, Bool, true, Option, none, some, ◌++◌, Text, text_eq,
  ◌==◌, equal_refl, arith, first-update, update-append_match, first-append_match, first-matches,
}
use mathlib.Core.List.{append_cancel_left}
use message_router.Models.{Moment, BugDailySequence}
use message_router.Session.{Db, Env, Result, ok, LocalDay}
use message_router.Session.Query
use message_router.Session.Query.{gets, require}
use message_router.Session.Tx.{Session, ◌>>=◌}
use message_router.Numbering.{
  sequence_of, put_sequence, insert_if_absent, increment, format_bug_number, next_sequence,
  next_bug_number, locked_sequence, next_bug_number_with_row_lock,
}
use message_router.Numbering.Decimal.{two_digits, value_from, value_from-two_digits}

-- The number that a day's counter has reached; a day without a row has reached none.
abbrev pub reached : Option BugDailySequence → ℕ
reached none = 0
reached (some row) = row.last_sequence

abbrev bump : BugDailySequence → BugDailySequence
bump r = record r { last_sequence = r.last_sequence + 1 }

-- The tables after a number was drawn for a day.
counted : Text → Option BugDailySequence → Db → Db
counted key none db = put_sequence (record { date_key = key; last_sequence = 1 }) db
counted key (some row) db = increment key db

is_of : Text → BugDailySequence → Bool
is_of key r = r.date_key == key

bump-is_of : (key : Text) (r : BugDailySequence) → is_of key r ≡ true → is_of key (bump r) ≡ true
unfolding is_of
bump-is_of key r h = h

new-is_of : (key : Text) (n : ℕ) → is_of key (record { date_key = key; last_sequence = n }) ≡ true
unfolding is_of
new-is_of key n = equal_refl key

insert-increment :
    (key : Text) (db : Db) (o : Option BugDailySequence)
    → sequence_of key db ≡ o
    → increment key (insert_if_absent key db) ≡ counted key o db
unfolding insert_if_absent increment sequence_of counted is_of
insert-increment key db none e = rw e (
    ap (λ rows. record db { bug_sequences = rows })
      (update-append_match (is_of key) bump db.bug_sequences
        (record { date_key = key; last_sequence = 0 }) e (new-is_of key 0)))
insert-increment key db (some row) e = rw e refl

sequence_of-counted :
    (key : Text) (db : Db) (o : Option BugDailySequence)
    → sequence_of key db ≡ o
    → sequence_of key (counted key o db)
      ≡ some (record { date_key = key; last_sequence = reached o + 1 })
unfolding increment sequence_of counted is_of
sequence_of-counted key db none e =
    first-append_match (is_of key) db.bug_sequences (record { date_key = key; last_sequence = 1 }) e
      (new-is_of key 1)
sequence_of-counted key db (some row) e =
    first-update (is_of key) bump db.bug_sequences (bump-is_of key) e
    ∙ ap (λ k. some (record { date_key = k; last_sequence = row.last_sequence + 1 }))
        ((text_eq.equal_iff row.date_key key).0 (first-matches (is_of key) db.bug_sequences e))

-- What both ways to draw a number compute, from the day's counter.
drawn : Moment → Env → Session → Result (Text × Session)
drawn created_at env s =
    let local = env.shanghai created_at in
    let row = sequence_of local.date_key s.db in
    ok
      (format_bug_number local (reached row + 1), record s { db = counted local.date_key row s.db })

next_sequence-drawn :
    (key : Text) (env : Env) (s : Session)
    → next_sequence key env s
      ≡ ok (
        reached (sequence_of key s.db) + 1,
        record s { db = counted key (sequence_of key s.db) s.db },
      )
unfolding next_sequence ◌>>=◌ gets require Query.◌>>=◌
next_sequence-drawn key env s =
    rw (insert-increment key s.db (sequence_of key s.db) refl)
      (rw (sequence_of-counted key s.db (sequence_of key s.db) refl) refl)

next_bug_number-drawn :
    (created_at : Moment) (env : Env) (s : Session)
    → next_bug_number created_at env s ≡ drawn created_at env s
unfolding next_bug_number drawn ◌>>=◌ Query.◌>>=◌
next_bug_number-drawn created_at env s =
    rw (next_sequence-drawn (env.shanghai created_at).date_key env s) refl

locked_sequence-drawn :
    (key : Text) (env : Env) (s : Session) (o : Option BugDailySequence)
    → locked_sequence key o env s ≡ ok (reached o + 1, record s { db = counted key o s.db })
unfolding locked_sequence counted ◌>>=◌
locked_sequence-drawn key env s none = refl
locked_sequence-drawn key env s (some row) = refl

-- The upsert of `next_bug_number` and the row lock of `_next_bug_number_with_row_lock` draw the same
-- number and leave the same tables behind, whatever counters there are; the row lock is taken
-- without a rival that creates the day's row.
pub next_bug_number-row_lock :
    (created_at : Moment) (env : Env) (s : Session)
    → next_bug_number created_at env s ≡ next_bug_number_with_row_lock created_at env s
unfolding next_bug_number_with_row_lock drawn ◌>>=◌ Query.◌>>=◌
next_bug_number-row_lock created_at env s =
    let local = env.shanghai created_at in
    let locked = locked_sequence-drawn local.date_key env s (sequence_of local.date_key s.db) in
    next_bug_number-drawn created_at env s ∙ sym (rw locked refl)

format_bug_number-injective :
    (local : LocalDay) (m n : ℕ) → format_bug_number local m ≡ format_bug_number local n → m ≡ n
unfolding format_bug_number
format_bug_number-injective local m n e =
    let same =
      append_cancel_left (two_digits local.month ++ two_digits local.day) (two_digits m)
        (two_digits n) e in
    sym (value_from-two_digits m) ∙ ap (value_from 0) same ∙ value_from-two_digits n

next_of_day-differs :
    (key : Text) (db : Db) (local : LocalDay) (r : Option BugDailySequence)
    → sequence_of key db ≡ r
    → format_bug_number local (reached r + 1)
      ≢ format_bug_number local (reached (sequence_of key (counted key r db)) + 1)
next_of_day-differs key db local r e q =
    let same = format_bug_number-injective local _ _ q in
    let next = ap reached (sequence_of-counted key db r e) in omega (arith, same, next)

-- Two numbers drawn one after the other on the same day in Shanghai both exist, and differ.
pub next_bug_number-distinct :
    (t u : Moment) (env : Env) (s : Session)
    → env.shanghai t ≡ env.shanghai u
    → (first_number : Text) × (between : Session) × (second_number : Text) × (after : Session)
      × (next_bug_number t env s ≡ ok (first_number, between))
      × (next_bug_number u env between ≡ ok (second_number, after))
      × (first_number ≢ second_number)
unfolding drawn
next_bug_number-distinct t u env s e =
    let local = env.shanghai t in
    let row = sequence_of local.date_key s.db in
    let between : Session = record s { db = counted local.date_key row s.db } in
    let again =
      subst
        (λ (l : LocalDay).
          format_bug_number local (reached row + 1)
          ≢ format_bug_number l (reached (sequence_of l.date_key between.db) + 1))
        e (next_of_day-differs local.date_key s.db local row refl) in
    (_, between, _, _, next_bug_number-drawn t env s, next_bug_number-drawn u env between, again)
