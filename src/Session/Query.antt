-- ===== src/Session/Query.antt =====
-- Statements that only read the tables, and may raise.
use mathlib.Core.Path.{◌≡◌, refl, ap}
use message_router.Prelude.{Bool, true, false, Option, none, some}
use message_router.Session.Errors.{Error, Result, ok, err}
use message_router.Session.Tables.{Db, Env}

abbrev pub Query {ℓ} : Type ℓ → Type ℓ
Query A = Env → Db → Result A

module _ {ℓ} {A : Type ℓ} where
  unfoldable pub pure : A → Query A
  pure a env db = ok a

  unfoldable pub raise : Error → Query A
  raise e env db = err e

  unfoldable pub gets : (Env → Db → A) → Query A
  gets f env db = ok (f env db)

  -- `if x is None: raise e`
  unfoldable pub require : Option A → Error → Query A
  require none e env db = err e
  require (some a) e env db = ok a

-- `if not b: raise e`
unfoldable pub ensure : Bool → Error → Query (Unit {0})
ensure true e env db = ok tt
ensure false e env db = err e

pub ensure-eq-ok :
    (b : Bool) (e : Error) (env : Env) (db : Db) {u : Unit {0}}
    → ensure b e env db ≡ ok u
    → b ≡ true
unfolding ensure
ensure-eq-ok true e env db h = refl
ensure-eq-ok false e env db h = absurd (cc)

-- `if b: q`
abbrev pub when : Bool → Query (Unit {0}) → Query (Unit {0})
when true q env db = q env db
when false q env db = ok tt

module _ {ℓ κ} {A : Type ℓ} {B : Type κ} where
  infixl 10 ◌>>=◌ ◌>>◌
  -- opening this opens the primitive statements too
  unfoldable pub ◌>>=◌ : Query A → (A → Query B) → Query B
  unfolding pure raise gets require ensure
  ◌>>=◌ m f env db = elim (m env db) [ ok a ↦ f a env db | err e ↦ err e ]

  abbrev pub ◌>>◌ : Query A → Query B → Query B
  m >> n = m >>= λ _. n

  -- A statement goes on after a first step that returns, and stops at one that raises.
  pub >>=-ok :
      (m : Query A) (f : A → Query B) (env : Env) (db : Db) {a : A}
      → m env db ≡ ok a
      → (m >>= f) env db ≡ f a env db
  unfolding ◌>>=◌
  >>=-ok m f env db h = ap (λ (r : Result A). elim r [ ok a ↦ f a env db | err e ↦ err e ]) h

  pub >>=-err :
      (m : Query A) (f : A → Query B) (env : Env) (db : Db) {e : Error}
      → m env db ≡ err e
      → (m >>= f) env db ≡ err e
  unfolding ◌>>=◌
  >>=-err m f env db h = ap (λ (r : Result A). elim r [ ok a ↦ f a env db | err e ↦ err e ]) h

  -- A statement that succeeded did so in each of its steps.
  pub >>=-eq-ok :
      (m : Query A) (f : A → Query B) (env : Env) (db : Db) {b : B}
      → (m >>= f) env db ≡ ok b
      → (a : A) × (m env db ≡ ok a) × (f a env db ≡ ok b)
  unfolding ◌>>=◌
  >>=-eq-ok m f env db {b} h = split (m env db) refl h
    where
      split :
          (r : Result A)
          → m env db ≡ r
          → elim r [ ok a ↦ f a env db | err e ↦ err e ] ≡ ok b
          → (a : A) × (m env db ≡ ok a) × (f a env db ≡ ok b)
      split (ok a) e h = (a, e, h)
      split (err x) e h = cc

module _ {ℓ} {A : Type ℓ} where
  pub require-eq-ok :
      (o : Option A) (e : Error) (env : Env) (db : Db) {a : A}
      → require o e env db ≡ ok a
      → o ≡ some a
  unfolding require
  require-eq-ok none e env db h = cc
  require-eq-ok (some b) e env db h = cc

  -- What a statement `require (← gets f) e` returned is what `f` found.
  pub gets-require-eq-ok :
      (f : Env → Db → Option A) (e : Error) (env : Env) (db : Db) {a : A}
      → (gets f >>= λ found. require found e) env db ≡ ok a
      → f env db ≡ some a
  unfolding ◌>>=◌
  gets-require-eq-ok f e env db h = require-eq-ok (f env db) e env db h

  -- Such a statement returns what `f` found.
  pub gets-require-ok :
      (f : Env → Db → Option A) (e : Error) (env : Env) (db : Db) {a : A}
      → f env db ≡ some a
      → (gets f >>= λ found. require found e) env db ≡ ok a
  unfolding ◌>>=◌
  gets-require-ok f e env db h = ap (λ o. require o e env db) h
