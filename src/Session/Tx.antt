-- ===== src/Session/Tx.antt =====
-- Transactions: what `with session.begin():` runs. The session counts the UUIDs that it has drawn.
pub mod Rules
use message_router.Prelude.{ℕ, suc, ◌≡◌, refl, ap, ◌∙◌}
use message_router.Models.{Uuid}
use message_router.Session.Errors.{Error, Result, ok, err, ok-injective}
use message_router.Session.Tables.{Db, Env}
use message_router.Session.Query.{Query}

pub record Session : Type 0 where
  pub db : Db
  pub drawn : ℕ
  pub chosen : ℕ

abbrev pub Tx {ℓ} : Type ℓ → Type ℓ
Tx A = Env → Session → Result (A × Session)

module _ {ℓ} {A : Type ℓ} where
  unfoldable pub pure : A → Tx A
  pure a env s = ok (a, s)

  abbrev pub with_session : Result A → Session → Result (A × Session)
  with_session (ok a) s = ok (a, s)
  with_session (err e) s = err e

  unfoldable pub query : Query A → Tx A
  query q env s = with_session (q env s.db) s

-- The writes of a transaction.
unfoldable pub modify : (Db → Db) → Tx (Unit {0})
modify f env s = ok (tt, record s { db = f s.db })

unfoldable pub uuid4 : Tx Uuid
uuid4 env s = ok (env.uuid s.drawn, record s { drawn = suc s.drawn })

-- An index that `secrets.choice` draws.
unfoldable pub draw : Tx ℕ
draw env s = ok (env.choice s.chosen, record s { chosen = suc s.chosen })

module _ {ℓ κ} {A : Type ℓ} {B : Type κ} where
  abbrev pub resume : Result (A × Session) → (A → Tx B) → Env → Result (B × Session)
  resume (ok (a, s)) f env = f a env s
  resume (err e) f env = err e

  infixl 10 ◌>>=◌ ◌>>◌
  -- opening this opens the primitive actions too
  unfoldable pub ◌>>=◌ : Tx A → (A → Tx B) → Tx B
  unfolding pure query modify uuid4 draw
  ◌>>=◌ m f env s = resume (m env s) f env

  abbrev pub ◌>>◌ : Tx A → Tx B → Tx B
  m >> n = m >>= λ _. n

module _ {ℓ κ} {A : Type ℓ} {B : Type κ} where
  -- A transaction that starts with a statement that reads: what follows from how that one ends.
  pub query_then-ok :
      (q : Query A) (f : A → Tx B) (env : Env) (s : Session) {a : A}
      → q env s.db ≡ ok a
      → (query q >>= f) env s ≡ f a env s
  unfolding ◌>>=◌
  query_then-ok q f env s h = ap (λ (r : Result A). resume (with_session r s) f env) h

  pub query_then-err :
      (q : Query A) (f : A → Tx B) (env : Env) (s : Session) {e : Error}
      → q env s.db ≡ err e
      → (query q >>= f) env s ≡ err e
  unfolding ◌>>=◌
  query_then-err q f env s h = ap (λ (r : Result A). resume (with_session r s) f env) h

  pub query_then-eq-ok :
      (q : Query A) (f : A → Tx B) (env : Env) (s : Session) {b : B × Session}
      → (query q >>= f) env s ≡ ok b
      → (a : A) × (q env s.db ≡ ok a) × (f a env s ≡ ok b)
  unfolding ◌>>=◌
  query_then-eq-ok q f env s {b} h = split (q env s.db) refl h
    where
      split :
          (r : Result A)
          → q env s.db ≡ r
          → resume (with_session r s) f env ≡ ok b
          → (a : A) × (q env s.db ≡ ok a) × (f a env s ≡ ok b)
      split (ok a) e h = (a, e, h)
      split (err x) e h = cc

  -- A transaction goes on after a first step that returns.
  pub >>=-ok :
      (m : Tx A) (f : A → Tx B) (env : Env) (s : Session) {a : A} {t : Session}
      → m env s ≡ ok (a, t)
      → (m >>= f) env s ≡ f a env t
  unfolding ◌>>=◌
  >>=-ok m f env s h = ap (λ (r : Result (A × Session)). resume r f env) h

  -- A transaction that returned did so in its first step and in the rest.
  pub >>=-eq-ok :
      (m : Tx A) (f : A → Tx B) (env : Env) (s : Session) {b : B × Session}
      → (m >>= f) env s ≡ ok b
      → (a : A) × (t : Session) × (m env s ≡ ok (a, t)) × (f a env t ≡ ok b)
  unfolding ◌>>=◌
  >>=-eq-ok m f env s {b} h = split (m env s) refl h
    where
      split :
          (r : Result (A × Session))
          → m env s ≡ r
          → resume r f env ≡ ok b
          → (a : A) × (t : Session) × (m env s ≡ ok (a, t)) × (f a env t ≡ ok b)
      split (ok (a, t)) e h = (a, t, e, h)
      split (err x) e h = cc

-- A write is made, and the transaction goes on.
pub modify_then-eq-ok {κ} :
    {B : Type κ} (f : Db → Db) (k : Unit {0} → Tx B) (env : Env) (s : Session) {b : B × Session}
    → (modify f >>= k) env s ≡ ok b
    → k tt env (record s { db = f s.db }) ≡ ok b
unfolding ◌>>=◌
modify_then-eq-ok f k env s h = h

-- A transaction that raises is rolled back; one that returns is committed.
abbrev pub commit {ℓ} : {A : Type ℓ} → Result (A × Session) → Db → Result A × Db
commit (ok (a, s)) db = (ok a, s.db)
commit (err e) db = (err e, db)

unfoldable pub transact {ℓ} : {A : Type ℓ} → Tx A → Env → Db → Result A × Db
transact m env db = commit (m env (record { db = db; drawn = 0; chosen = 0 })) db

-- A transaction that was committed returned.
pub transact-eq-ok {ℓ} :
    {A : Type ℓ} (m : Tx A) (env : Env) (db : Db) {a : A}
    → (transact m env db).0 ≡ ok a
    → (s : Session) × (m env (record { db = db; drawn = 0; chosen = 0 }) ≡ ok (a, s))
unfolding transact
transact-eq-ok {A} m env db {a} h = split (m env start) refl h
  where
    start : Session
    start = record { db = db; drawn = 0; chosen = 0 }

    split :
        (r : Result (A × Session))
        → m env start ≡ r
        → (commit r db).0 ≡ ok a
        → (s : Session) × (m env start ≡ ok (a, s))
    split (ok (b, s)) e h = (s, e ∙ ap (λ x. ok (x, s)) (ok-injective h))
    split (err x) e h = cc

-- A transaction that ended with a result, and the tables that it left.
pub transact-committed {ℓ} :
    {A : Type ℓ} (m : Tx A) (env : Env) (db db' : Db) {a : A}
    → transact m env db ≡ (ok a, db')
    → (s : Session) × (m env (record { db = db; drawn = 0; chosen = 0 }) ≡ ok (a, s)) × (s.db ≡ db')
unfolding transact
transact-committed {A} m env db db' {a} h = split (m env start) refl h
  where
    start : Session
    start = record { db = db; drawn = 0; chosen = 0 }

    split :
        (r : Result (A × Session))
        → m env start ≡ r
        → commit r db ≡ (ok a, db')
        → (s : Session) × (m env start ≡ ok (a, s)) × (s.db ≡ db')
    split (ok (b, s)) e h =
        (s, e ∙ ap (λ x. ok (x, s)) (ok-injective (ap (λ p. p.0) h)), ap (λ p. p.1) h)
    split (err x) e h = absurd (cc)
